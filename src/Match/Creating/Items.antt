-- ===== src/Match/Creating/Items.antt =====
-- What a created match starts with, and what it means for its end.
use quiz.Prelude.{
  ℕ, suc, ◌+◌, ◌≤◌, ◌≡◌, refl, ap, arith, inl, inr, Bool, true, false, not, ◌&&◌, none, some, List,
  [], ◌∷◌, map, nat_eq, int_eq, Text, pos, All, contains, Distinct, length, Result, ok, err,
  Bool-cases,
}
use quiz.Scoring.{ScoringConfig, AnswerRecord}
use quiz.Scoring.Float.{Float64}
use quiz.Queue.{MatchPair}
use quiz.Room.{RoomPlayer}
use quiz.Question.{Question}
use quiz.Question.Gather.{PackRequest, PackResponse, PackError}
use quiz.Question.Pack.{fetch_pack}
use quiz.Question.Pack.Size.{fetch_pack-length}
use quiz.Match.{QuestionPackItem, MatchMode, random_1v1, private_room, PlayerState}
use quiz.Match.Answering.{orders}
use quiz.Match.Answering.Submit.{Played, Played-lem, pack_orders}
use quiz.Match.Finalize.{fill_missing}
use quiz.Match.Finalize.Filling.{fill_missing_lem}
use quiz.Match.Creating.{
  Match, Action, creates, saves_history, params, entrant_of_waiting, Replies, Plan, Entrant,
  pack_items, fill_match, random_request, create_random_match, create_private_match,
  private_request, host_of, host_scans, entrant_of_room,
}

length-pack_items :
    (replies : Replies) (i : ℕ) (qs : List Question) → length (pack_items replies i qs) ≡ length qs
unfolding pack_items
length-pack_items replies i [] = refl
length-pack_items replies i (q ∷ qs) = ap suc (length-pack_items replies (i + 1) qs)

-- The orders go up from `i + 1`.
pack_items-later :
    (replies : Replies) (n i : ℕ) (qs : List Question)
    → n ≤ i
    → contains (pos n) (pack_orders (pack_items replies i qs)) ≡ false
unfolding pack_items
pack_items-later replies n i [] le = refl
pack_items-later replies n i (q ∷ qs) le =
    ground (arith, pack_items-later replies n (i + 1) qs (omega arith))

pack_items-Distinct :
    (replies : Replies) (i : ℕ) (qs : List Question)
    → Distinct (pack_orders (pack_items replies i qs))
unfolding pack_items
pack_items-Distinct replies i [] = tt
pack_items-Distinct replies i (q ∷ qs) = (
  pack_items-later replies (i + 1) (i + 1) qs (omega arith),
  pack_items-Distinct replies (i + 1) qs,
)

-- One answer for each question, as many as asked for, and none twice.
abbrev pub ScoredOnce : List QuestionPackItem → ℕ → List AnswerRecord → Type 0
ScoredOnce items count full =
    (length full ≡ count)
    × Distinct (orders full)
    × All (λ o. contains o (orders full) ≡ true) (pack_orders items)

module _ (fl : Float64) where
  fill_match_ok :
      (replies : Replies) (plan : Plan) (mode : MatchMode) (eligible : Bool)
      (players : List Entrant) (history : List Text → List (Action fl.F))
      (before : List (Action fl.F)) (res : Result PackError PackResponse) (match : Match)
      (items : List QuestionPackItem)
      → (fill_match fl replies plan mode eligible players history before res).0 ≡ ok (match, items)
      → (resp : PackResponse) × (res ≡ ok resp) × (items ≡ pack_items replies 0 resp.questions)
  unfolding fill_match
  fill_match_ok replies plan mode eligible players history before (ok resp) match items h =
      (resp, refl, ground arith)
  fill_match_ok replies plan mode eligible players history before (err e) match items h =
      absurd (cc)

  random_match_ok :
      (replies : Replies) (plan : Plan) (pair : MatchPair) (match : Match)
      (items : List QuestionPackItem)
      → (create_random_match fl replies plan pair).0 ≡ ok (match, items)
      → (resp : PackResponse) × (fetch_pack fl replies.outside (random_request replies plan pair)
          ≡ ok resp)
        × (items ≡ pack_items replies 0 resp.questions)
  unfolding create_random_match
  random_match_ok replies plan pair match items h =
      elim (Bool-cases (replies.scans plan.match_id && replies.scans pair.player1.user_id)) [
        | inr unscanned ↦ absurd (ground arith)
        | inl scanned ↦ elim (Bool-cases replies.created) [
          | inr failed ↦ absurd (ground arith)
          | inl created ↦
              let p1 = pair.player1 in
              let p2 = pair.player2 in
              let eligible = not p1.is_guest && not p2.is_guest in
              let players : List Entrant = entrant_of_waiting p1 ∷ entrant_of_waiting p2 ∷ [] in
              let history : List Text → List (Action fl.F) =
                λ ids. saves_history p1.user_id ids ∷ saves_history p2.user_id ids ∷ [] in
              let before : List (Action fl.F) =
                creates (params plan random_1v1 eligible (some p1.user_id) none) ∷ [] in
              let pack = fetch_pack fl replies.outside (random_request replies plan pair) in
              fill_match_ok replies plan random_1v1 eligible players history before pack match items
                (ground (arith, scanned, created, h))
        ]
      ]

  private_match_ok :
      (replies : Replies) (plan : Plan) (room_code : Text) (players : List RoomPlayer)
      (match : Match) (items : List QuestionPackItem)
      → (create_private_match fl replies plan room_code players).0 ≡ ok (match, items)
      → (resp : PackResponse) × (fetch_pack fl replies.outside (private_request replies plan)
          ≡ ok resp)
        × (items ≡ pack_items replies 0 resp.questions)
  unfolding create_private_match
  private_match_ok replies plan room_code players match items h =
      elim (Bool-cases (replies.scans plan.match_id && host_scans replies (host_of players))) [
        | inr unscanned ↦ absurd (ground arith)
        | inl scanned ↦ elim (Bool-cases replies.created) [
          | inr failed ↦ absurd (ground arith)
          | inl created ↦
              let history : List Text → List (Action fl.F) = λ ids. [] in
              let before : List (Action fl.F) =
                creates (params plan private_room true (host_of players) (some room_code)) ∷ [] in
              let pack = fetch_pack fl replies.outside (private_request replies plan) in
              fill_match_ok replies plan private_room true (map entrant_of_room players) history
                before pack match items (ground (arith, scanned, created, h))
        ]
      ]

  pack-scored :
      (cfg : ScoringConfig fl.F) (replies : Replies) (req : PackRequest) (resp : PackResponse)
      (items : List QuestionPackItem) (clock : ℕ → ℕ) (s t : PlayerState fl.F)
      → replies.outside.cached ≡ none
      → fetch_pack fl replies.outside req ≡ ok resp
      → items ≡ pack_items replies 0 resp.questions
      → s.answers ≡ []
      → Played fl cfg items s t
      → ScoredOnce items req.total_questions
          (fill_missing (orders t.answers) clock 0 items t.answers)
  pack-scored cfg replies req resp items clock s t new fetched same start played =
      let distinct : Distinct (pack_orders items) =
        rw same (pack_items-Distinct replies 0 resp.questions) in
      let (proper, _) = Played-lem fl cfg items s start played in
      let (count, once, all, _, _) = fill_missing_lem clock items t.answers distinct proper in
      (
        ground (
          arith,
          count,
          same,
          length-pack_items replies 0 resp.questions,
          fetch_pack-length fl replies.outside req resp new fetched,
        ),
        once,
        all,
      )

  -- In a match that `CreateRandomMatch` has made with a new pack, whatever answers a player without
  -- answers goes on to submit successfully, `FinalizeMatch` scores exactly as many answers as
  -- questions were asked for, one for each question of the match and none twice.
  pub create_random_match_scored :
      (cfg : ScoringConfig fl.F) (replies : Replies) (plan : Plan) (pair : MatchPair)
      (match : Match) (items : List QuestionPackItem) (clock : ℕ → ℕ) (s t : PlayerState fl.F)
      → replies.outside.cached ≡ none
      → (create_random_match fl replies plan pair).0 ≡ ok (match, items)
      → s.answers ≡ []
      → Played fl cfg items s t
      → ScoredOnce items plan.question_count
          (fill_missing (orders t.answers) clock 0 items t.answers)
  unfolding random_request
  create_random_match_scored cfg replies plan pair match items clock s t new made start played =
      let (resp, fetched, same) = random_match_ok replies plan pair match items made in
      pack-scored cfg replies (random_request replies plan pair) resp items clock s t new fetched
        same start played

  -- In a match that `CreatePrivateMatch` has made with a new pack for a room, whatever answers a
  -- player without answers goes on to submit successfully, `FinalizeMatch` scores exactly as many
  -- answers as questions were asked for, one for each question of the match and none twice.
  create_private_match_scored :
      (cfg : ScoringConfig fl.F) (replies : Replies) (plan : Plan) (room_code : Text)
      (players : List RoomPlayer) (match : Match) (items : List QuestionPackItem) (clock : ℕ → ℕ)
      (s t : PlayerState fl.F)
      → replies.outside.cached ≡ none
      → (create_private_match fl replies plan room_code players).0 ≡ ok (match, items)
      → s.answers ≡ []
      → Played fl cfg items s t
      → ScoredOnce items plan.question_count
          (fill_missing (orders t.answers) clock 0 items t.answers)
  unfolding private_request
  create_private_match_scored cfg replies plan room_code players match items clock s t new made
        start played =
      let (resp, fetched, same) =
        private_match_ok replies plan room_code players match items made in
      pack-scored cfg replies (private_request replies plan) resp items clock s t new fetched same
        start played
