-- ===== src/Question/Pack/Histories.antt =====
-- The checks of internal/question/service.go against the questions that the two players have seen.
use Prim.Native.Nat.{max}
use quiz.Prelude.{
  ℕ, ◌+◌, ◌-◌, ◌<◌, ◌≤◌, ◌≡◌, refl, ap, arith, inl, inr, Bool, true, false, not, ◌&&◌, List, [],
  ◌∷◌, ◌++◌, ◌==◌, nat_eq, text_eq, text_beq_iff, ltb, Text, codes, contains, length, All,
  All-append, ok, err, Bool-cases, Option-cases, is_empty, All-take, take,
}
use quiz.Scoring.Float.{Float64}
use quiz.Question.{
  Question, ids_of, keep_ids, HistoryReplies, both_unseen, check_both_players_history,
}
use quiz.Question.Gather.{
  Outside, PackRequest, insufficient_unique, add_new, fetch_ai_mixed, at_least_one, proportional,
}
use quiz.Question.Pack.{trim, keep_unseen, allow_few, replace_both, cross_match_both}

-- Redis is connected, both players have identifiers, and every pipeline is executed.
unfoldable pub IsReachable : HistoryReplies → ℕ → ℕ → Type 0
IsReachable h player1 player2 =
    (h.connected ≡ true)
    × (player1 == 0 ≡ false)
    × (player2 == 0 ≡ false)
    × ((ids : List Text) → h.pipeline ids ≡ true)

-- `maxDup`: how many of the questions the player with more of them has seen.
abbrev pub most_seen : HistoryReplies → ℕ → ℕ → List Question → ℕ
most_seen h player1 player2 qs =
    let check = check_both_players_history h player1 player2 (ids_of qs) in
    max check.dup1_count check.dup2_count

-- Neither player has the identifier in the history.
unfoldable pub IsUnseen : HistoryReplies → ℕ → ℕ → Text → Type 0
IsUnseen h player1 player2 id = (h.seen player1 id ≡ false) × (h.seen player2 id ≡ false)

check-eq-both_unseen :
    (h : HistoryReplies) (player1 player2 : ℕ) (ids : List Text)
    → IsReachable h player1 player2
    → check_both_players_history h player1 player2 ids ≡ both_unseen h player1 player2 ids
unfolding check_both_players_history IsReachable both_unseen
check-eq-both_unseen h player1 player2 [] (c, n1, n2, p) = rw (c, n1, n2) refl
check-eq-both_unseen h player1 player2 (id ∷ ids) (c, n1, n2, p) = rw (c, n1, n2, p (id ∷ ids)) refl

both_unseen-IsUnseen :
    (h : HistoryReplies) (player1 player2 : ℕ) (ids : List Text) (id : Text)
    → contains id (both_unseen h player1 player2 ids).unseen_by_both ≡ true
    → IsUnseen h player1 player2 id
unfolding both_unseen IsUnseen
both_unseen-IsUnseen h player1 player2 [] id c = cc
both_unseen-IsUnseen h player1 player2 (x ∷ ids) id c = ground (
  arith,
  both_unseen-IsUnseen h player1 player2 ids id,
  text_beq_iff x id,
  ap (h.seen player1) {x = x} {y = id},
  ap (h.seen player2) {x = x} {y = id},
)

module _ (h : HistoryReplies) (player1 player2 : ℕ) (unseen : List Text)
    (sound : (id : Text) → contains id unseen ≡ true → IsUnseen h player1 player2 id) where
  keep_unseen-IsUnseen :
      (taken : List Text) (qs : List Question)
      → All (λ q. IsUnseen h player1 player2 q.id) (keep_unseen unseen taken qs)
  unfolding keep_unseen
  keep_unseen-IsUnseen taken [] = tt
  keep_unseen-IsUnseen taken (q ∷ qs) =
      elim (Bool-cases (contains q.id unseen && not (contains q.id taken))) [
        | inl kept ↦ rw kept (sound q.id (ground arith), keep_unseen-IsUnseen (q.id ∷ taken) qs)
        | inr left ↦ rw left (keep_unseen-IsUnseen taken qs)
      ]

  -- What is kept and what a player has seen are different questions.
  length-keep_unseen :
      (taken : List Text) (qs : List Question)
      → (length (keep_unseen unseen taken qs)
            + (both_unseen h player1 player2 (ids_of qs)).dup1_count
          ≤ length qs)
        × (length (keep_unseen unseen taken qs)
              + (both_unseen h player1 player2 (ids_of qs)).dup2_count
            ≤ length qs)
  unfolding keep_unseen both_unseen IsUnseen
  length-keep_unseen taken [] = (omega arith, omega arith)
  length-keep_unseen taken (q ∷ qs) =
      elim (Bool-cases (contains q.id unseen && not (contains q.id taken))) [
        | inl kept ↦
            let (s1, s2) = sound q.id (ground arith) in
            let (l1, l2) = length-keep_unseen (q.id ∷ taken) qs in
            rw (kept, s1, s2) (omega arith, omega arith)
        | inr left ↦ let (l1, l2) = length-keep_unseen taken qs in (ground arith, ground arith)
      ]

add_new-All :
    (P : Text → Type 0) (usable : Text → Bool) (total : ℕ) (known : List Text)
    (filtered qs : List Question)
    → ((id : Text) → usable id ≡ true → P id)
    → All (λ q. P q.id) filtered
    → All (λ q. P q.id) (add_new usable total known filtered qs)
unfolding add_new
add_new-All P usable total known filtered [] sound h = h
add_new-All P usable total known filtered (q ∷ qs) sound h =
    elim (Bool-cases (usable q.id && (not (contains q.id known) && ltb (length filtered) total))) [
      | inl fresh ↦ rw fresh (
          add_new-All P usable total (q.id ∷ known) (filtered ++ q ∷ []) qs sound
            (All-append (λ q. P q.id) filtered (q ∷ []) h (sound q.id (ground arith), tt)))
      | inr old ↦ rw old (add_new-All P usable total known filtered qs sound h)
    ]

usable-IsUnseen :
    (h : HistoryReplies) (player1 player2 : ℕ) (id : Text)
    → IsReachable h player1 player2
    → not (is_empty (check_both_players_history h player1 player2 (id ∷ [])).unseen_by_both) ≡ true
    → IsUnseen h player1 player2 id
unfolding both_unseen IsUnseen
usable-IsUnseen h player1 player2 id reach u =
    let eq = check-eq-both_unseen h player1 player2 (id ∷ []) reach in ground (arith, eq, u)

trim-All :
    (P : Question → Type 0) (total : ℕ) (qs out : List Question)
    → All P qs
    → trim insufficient_unique total qs ≡ ok out
    → All P out
unfolding trim
trim-All P total qs out h e = elim (Bool-cases (ltb (length qs) total)) [
  | inl short ↦ ground arith
  | inr enough ↦ elim (Bool-cases (ltb total (length qs))) [
    | inl long ↦ let eq : out ≡ take total qs = ground arith in rw eq (All-take P total qs h)
    | inr exact ↦ let eq : out ≡ qs = ground arith in rw eq h
  ]
]

replace_both-IsUnseen :
    (fl : Float64) (o : Outside) (req : PackRequest) (player1 player2 : ℕ) (unseen : List Text)
    (result : List Question)
    → IsReachable o.history player1 player2
    → ((id : Text) → contains id unseen ≡ true → IsUnseen o.history player1 player2 id)
    → length (keep_unseen unseen [] result) < req.total_questions
    → All
        (λ q. IsUnseen o.history player1 player2 q.id)
        (replace_both fl o req player1 player2 unseen result)
unfolding replace_both
replace_both-IsUnseen fl o req player1 player2 unseen result reach sound less =
    let filtered = keep_unseen unseen [] result in
    let kept = keep_unseen-IsUnseen o.history player1 player2 unseen sound [] result in
    let needs = at_least_one req.difficulty_counts (
      proportional fl (req.total_questions - length filtered) req.total_questions
        req.difficulty_counts) in
    let needed : ltb 0 (req.total_questions - length filtered) ≡ true = ground arith in
    elim (Option-cases (fetch_ai_mixed o req.category needs (req.seed ++ codes "-unique"))) [
      | inl failed ↦ rw (needed, failed) kept
      | inr (additional, got) ↦
          rw (needed, got)
            (add_new-All (IsUnseen o.history player1 player2) _ req.total_questions
              (ids_of filtered) filtered additional
              (λ id. usable-IsUnseen o.history player1 player2 id reach) kept)
    ]

-- Of a pack of the size asked for, one of two reachable players has seen more than three questions:
-- if no error is returned, neither player has seen any question of the returned pack.
pub cross_match_both-IsUnseen :
    (fl : Float64) (o : Outside) (req : PackRequest) (player1 player2 : ℕ)
    (result out : List Question)
    → IsReachable o.history player1 player2
    → length result ≡ req.total_questions
    → 3 < most_seen o.history player1 player2 result
    → cross_match_both fl o req player1 player2 result ≡ ok out
    → All (λ q. IsUnseen o.history player1 player2 q.id) out
unfolding cross_match_both
cross_match_both-IsUnseen fl o req player1 player2 result out reach size many h =
    let ids = ids_of result in
    let eq = check-eq-both_unseen o.history player1 player2 ids reach in
    let sound : (id : Text)
        → contains id (check_both_players_history o.history player1 player2 ids).unseen_by_both
          ≡ true
        → IsUnseen o.history player1 player2 id =
      rw eq (both_unseen-IsUnseen o.history player1 player2 ids) in
    let unseen = (check_both_players_history o.history player1 player2 ids).unseen_by_both in
    let (l1, l2) = length-keep_unseen o.history player1 player2 unseen sound [] result in
    let less : length (keep_unseen unseen [] result) < req.total_questions = ground (arith, eq) in
    trim-All (λ q. IsUnseen o.history player1 player2 q.id) req.total_questions
      (replace_both fl o req player1 player2 unseen result) out
      (replace_both-IsUnseen fl o req player1 player2 unseen result reach sound less)
      (ground (arith, h))

-- If one of the two players has seen a question of the pack, neither has seen more than three, and
-- the questions unseen by both together with the larger of the two numbers are fewer than the
-- request asks for, as when the players have seen different ones, the pack is refused with an
-- error.
cross_match_both-refuses :
    (fl : Float64) (o : Outside) (req : PackRequest) (player1 player2 : ℕ) (result : List Question)
    → 0 < most_seen o.history player1 player2 result
    → most_seen o.history player1 player2 result ≤ 3
    → length (
          keep_ids
            (check_both_players_history o.history player1 player2 (ids_of result)).unseen_by_both
            result)
        + most_seen o.history player1 player2 result
      < req.total_questions
    → cross_match_both fl o req player1 player2 result ≡ err insufficient_unique
unfolding cross_match_both allow_few trim
cross_match_both-refuses fl o req player1 player2 result some_seen few missing = ground arith
