-- ===== src/Match/Finalize/Results.antt =====
-- The outcome of `FinalizeMatch`: what it stores, what it reports, and when it records results.
use quiz.Prelude.{
  ℕ, ◌+◌, ◌≡◌, ◌≢◌, inl, inr, refl, sym, ap, ◌∙◌, true, Option, none, some, List, [], ◌∷◌, ◌++◌,
  map, arith, text_eq, text_beq_iff, pos, All, Result, ok, length, Option-cases, Bool-cases,
}
use quiz.Scoring.{ScoringConfig}
use quiz.Scoring.Float.{Float64}
use quiz.Leaderboard.{RecordRequest}
use quiz.Match.{QuestionPackItem, PlayerState, Summary, LockReply}
use quiz.Match.Answering.{per_question_timeout}
use quiz.Match.Finalize.{
  Action, locks, unlocks, completes_match, records_private, FinalizeError, Replies, Clock,
  MatchCompletePayload, Route, route_of, record_requests, finalize_states, save_states,
  collect_requests, judged, result_of, finalize_loaded, finalize_locked, with_lock, finalize_match,
}

module _ (fl : Float64) (cfg : ScoringConfig fl.F) where
  open fl use {F}

  -- The actions of a run that reached the status update: every finalised state saved, then the rest.
  abbrev Finished :
      ℕ
      → Replies F
      → (ℕ → Clock)
      → List (PlayerState F)
      → List QuestionPackItem
      → List (Action F)
      → Type 0
  Finished match_id replies clocks states questions rest =
      (finalize_match fl cfg match_id replies clocks).1
      ≡ locks
          ∷ (save_states fl cfg (
                finalize_states fl cfg (per_question_timeout replies.second_summary) questions
                  clocks 0 states)
              ++ completes_match ∷ rest)
        ++ unlocks ∷ []

  with_lock_ok :
      (lock : LockReply) (body : Result FinalizeError (MatchCompletePayload F) × List (Action F))
      (payload : MatchCompletePayload F)
      → (with_lock fl cfg lock body).0 ≡ ok payload
      → (body.0 ≡ ok payload) × ((with_lock fl cfg lock body).1 ≡ locks ∷ body.1 ++ unlocks ∷ [])
  unfolding with_lock
  with_lock_ok LockReply.acquired (r, actions) payload h = (h, refl)
  with_lock_ok LockReply.held body payload h = absurd (cc)
  with_lock_ok LockReply.failed body payload h = absurd (cc)

  finalize_locked_ok :
      (match_id : ℕ) (replies : Replies F) (clocks : ℕ → Clock) (payload : MatchCompletePayload F)
      → (finalize_locked fl cfg match_id replies clocks).0 ≡ ok payload
      → (states : List (PlayerState F)) × (questions : List QuestionPackItem) × (replies.states
          ≡ some states)
        × (replies.questions ≡ some questions)
        × (finalize_locked fl cfg match_id replies clocks
            ≡ finalize_loaded fl cfg match_id replies clocks states questions)
  unfolding finalize_locked
  finalize_locked_ok match_id replies clocks payload h = elim (Option-cases replies.states) [
    | inl e ↦ absurd (ground arith)
    | inr (states, e) ↦ elim (Option-cases replies.questions) [
      | inl e' ↦ absurd (ground arith)
      | inr (questions, e') ↦ (states, questions, e, e', ground arith)
    ]
  ]

  -- The judged requests of a run.
  abbrev pub judged_requests :
      ℕ
      → Replies F
      → (ℕ → Clock)
      → List (PlayerState F)
      → List QuestionPackItem
      → List RecordRequest
  judged_requests match_id replies clocks states questions = judged (
      collect_requests fl cfg
        (route_of replies.has_leaderboard replies.first_summary).leaderboard_eligible match_id
        (length questions)
        (finalize_states fl cfg (per_question_timeout replies.second_summary) questions clocks 0
          states))

  finalize_loaded_ok :
      (match_id : ℕ) (replies : Replies F) (clocks : ℕ → Clock) (states : List (PlayerState F))
      (questions : List QuestionPackItem) (payload : MatchCompletePayload F)
      → (finalize_loaded fl cfg match_id replies clocks states questions).0 ≡ ok payload
      → (payload.results ≡ map (result_of fl cfg) states)
        × ((finalize_loaded fl cfg match_id replies clocks states questions).1
            ≡ save_states fl cfg (
                finalize_states fl cfg
                  (per_question_timeout replies.second_summary)
                  questions
                  clocks
                  0
                  states)
              ++ (completes_match
                  ∷ record_requests fl cfg
                      (route_of replies.has_leaderboard replies.first_summary)
                      replies.route_summary
                      0
                      (judged_requests match_id replies clocks states questions)))
  unfolding finalize_loaded
  finalize_loaded_ok match_id replies clocks states questions payload h =
      elim (Bool-cases replies.status_updated) [
        | inl fine ↦ (ground arith, ground arith)
        | inr failed ↦ absurd (ground arith)
      ]

  -- A successful `FinalizeMatch` has, under the lock, saved the finalised state of every player to
  -- Postgres and to Redis, completed the match and then recorded the judged requests. The rows that
  -- it returns are made of the states as they were before.
  pub finalize_match_ok :
      (match_id : ℕ) (replies : Replies F) (clocks : ℕ → Clock) (payload : MatchCompletePayload F)
      → (finalize_match fl cfg match_id replies clocks).0 ≡ ok payload
      → (states : List (PlayerState F)) × (questions : List QuestionPackItem) × (replies.states
          ≡ some states)
        × (replies.questions ≡ some questions)
        × (payload.results ≡ map (result_of fl cfg) states)
        × Finished match_id replies clocks states questions (
            record_requests fl cfg
              (route_of replies.has_leaderboard replies.first_summary)
              replies.route_summary
              0
              (judged_requests match_id replies clocks states questions))
  unfolding finalize_match
  finalize_match_ok match_id replies clocks payload h =
      let body = finalize_locked fl cfg match_id replies clocks in
      let (fine, actions) = with_lock_ok replies.lock body payload h in
      let (states, questions, s, q, same) =
        finalize_locked_ok match_id replies clocks payload fine in
      let (rows, saved) =
        finalize_loaded_ok match_id replies clocks states questions payload
          (ap (λ x. x.0) (sym same) ∙ fine) in
      (
        states,
        questions,
        s,
        q,
        rows,
        actions ∙ ap (λ l. locks ∷ l ++ unlocks ∷ []) (ap (λ x. x.1) same ∙ saved),
      )

  rows_unscored :
      (states : List (PlayerState F))
      → All (λ s. s.final_score ≡ none) states
      → All (λ r. r.final_score ≡ pos 0) (map (result_of fl cfg) states)
  unfolding result_of
  rows_unscored [] h = tt
  rows_unscored (s ∷ states) h = (ground arith, rows_unscored states h.1)

  -- For a match whose players have no final score yet, every row of the payload that
  -- `FinalizeMatch` returns says 0, whatever scores it has computed and saved.
  pub finalize_match-reports_zero :
      (match_id : ℕ) (replies : Replies F) (clocks : ℕ → Clock) (payload : MatchCompletePayload F)
      (states : List (PlayerState F))
      → (finalize_match fl cfg match_id replies clocks).0 ≡ ok payload
      → replies.states ≡ some states
      → All (λ s. s.final_score ≡ none) states
      → All (λ r. r.final_score ≡ pos 0) payload.results
  finalize_match-reports_zero match_id replies clocks payload states h e fresh =
      let (states', _, e', _, rows, _) = finalize_match_ok match_id replies clocks payload h in
      let same : states' ≡ states = ground arith in rw (rows, same) (rows_unscored states fresh)

  -- What is recorded: for a private room with a code, every request on the leaderboard of that room.
  pub record_requests-private :
      (route : Route) (summary : ℕ → Option Summary) (i : ℕ) (reqs : List RecordRequest)
      → route.is_private_room ≡ true
      → route.room_code ≢ []
      → record_requests fl cfg route summary i reqs ≡ map (records_private route.room_code) reqs
  unfolding record_requests
  record_requests-private route summary i [] p c = refl
  record_requests-private route summary i (r ∷ reqs) p c = ground (
    arith,
    text_beq_iff route.room_code [],
    record_requests-private route summary (i + 1) reqs p c,
  )
