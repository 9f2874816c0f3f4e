-- ===== src/Match/Finalize/Winners.antt =====
-- Who has won: the loop for the highest score and the marking of the requests.
use quiz.Prelude.{
  ◌≡◌, ◌↔◌, refl, ap, Bool, true, false, not, is_empty, ◌||◌, List, [], ◌∷◌, map, if◌then◌else◌,
  int_eq, int_beq_iff, arith, ℤ, ◌≤ℤ◌, ltb_ℤ, All, contains, beq_self, eq_of_parts,
}
use quiz.Leaderboard.{RecordRequest}
use quiz.Match.Finalize.{highest_score, assign_won, judged}

abbrev pub scores : List RecordRequest → List ℤ
scores = map λ r. r.score

-- No request of the list scores more.
abbrev pub AtMost : List RecordRequest → ℤ → Type 0
AtMost reqs n = All (λ r. r.score ≤ℤ n) reqs

AtMost-mono : (reqs : List RecordRequest) (m n : ℤ) → m ≤ℤ n → AtMost reqs m → AtMost reqs n
AtMost-mono [] m n h a = tt
AtMost-mono (r ∷ reqs) m n h a = (omega arith, AtMost-mono reqs m n h a.1)

highest_score-bound :
    (h : ℤ) (reqs : List RecordRequest)
    → (h ≤ℤ highest_score h reqs) × AtMost reqs (highest_score h reqs)
unfolding highest_score
highest_score-bound h [] = (omega arith, tt)
highest_score-bound h (r ∷ reqs) =
    let h' = if ltb_ℤ h r.score then r.score else h in
    let (low, all) = highest_score-bound h' reqs in
    (ground (arith, low), (ground (arith, low), all))

highest_score-attained :
    (h : ℤ) (reqs : List RecordRequest) → contains (highest_score h reqs) (h ∷ scores reqs) ≡ true
unfolding highest_score
highest_score-attained h [] = ground (arith, beq_self h)
highest_score-attained h (r ∷ reqs) =
    let h' = if ltb_ℤ h r.score then r.score else h in
    ground (arith, highest_score-attained h' reqs)

attained-le :
    (h b : ℤ) (reqs : List RecordRequest) → contains h (scores reqs) ≡ true → AtMost reqs b → h ≤ℤ b
attained-le h b [] c a = absurd (cc)
attained-le h b (r ∷ reqs) c a = ground (arith, attained-le h b reqs, int_beq_iff r.score h)

-- A request is marked exactly if none scores more.
assign_won-best :
    (h : ℤ) (all reqs : List RecordRequest)
    → contains h (scores all) ≡ true
    → AtMost all h
    → AtMost reqs h
    → All (λ r. (r.won ≡ true) ↔ AtMost all r.score) (assign_won h reqs)
unfolding assign_won
assign_won-best h all [] c a b = tt
assign_won-best h all (r ∷ reqs) c a b = (
  (
    λ w.
        let same : h ≡ r.score = ground (arith, int_beq_iff r.score h) in
        AtMost-mono all h r.score (rw same (omega arith)) a,
    λ best.
        let top : r.score ≡ h =
          eq_of_parts r.score h (omega (arith, attained-le h r.score all c best, b.0)) in
        (int_beq_iff r.score h).1 top,
  ),
  assign_won-best h all reqs c a b.1,
)

-- Some request is marked.
abbrev pub any_won : List RecordRequest → Bool
any_won [] = false
any_won (r ∷ reqs) = r.won || any_won reqs

assign_won-some :
    (h : ℤ) (reqs : List RecordRequest)
    → contains h (scores reqs) ≡ true
    → any_won (assign_won h reqs) ≡ true
unfolding assign_won
assign_won-some h [] c = absurd (cc)
assign_won-some h (r ∷ reqs) c = ground (arith, assign_won-some h reqs)

assign_won-scores : (h : ℤ) (reqs : List RecordRequest) → scores (assign_won h reqs) ≡ scores reqs
unfolding assign_won
assign_won-scores h [] = refl
assign_won-scores h (r ∷ reqs) = ap (λ l. r.score ∷ l) (assign_won-scores h reqs)

-- Among the requests of the players that are recorded, exactly those that no other outscores are
-- marked as won, so all that share the highest score; if there is a request, one is marked; and the
-- scores stay as they were.
pub judged_lem :
    (reqs : List RecordRequest)
    → All (λ r. (r.won ≡ true) ↔ AtMost reqs r.score) (judged reqs)
      × (any_won (judged reqs) ≡ not (is_empty reqs))
      × (scores (judged reqs) ≡ scores reqs)
unfolding judged
judged_lem [] = (tt, refl, refl)
judged_lem (r ∷ reqs) =
    let h = highest_score r.score reqs in
    let bound = highest_score-bound r.score reqs in
    let all : AtMost (r ∷ reqs) h = (bound.0, bound.1) in
    let at = highest_score-attained r.score reqs in
    (
      assign_won-best h (r ∷ reqs) (r ∷ reqs) at all all,
      assign_won-some h (r ∷ reqs) at,
      assign_won-scores h (r ∷ reqs),
    )
