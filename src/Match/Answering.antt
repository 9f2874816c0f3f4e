-- ===== src/Match/Answering.antt =====
-- `SubmitAnswer` of internal/match/service.go.
pub mod Submit
use quiz.Prelude.{
  ℕ, ◌+◌, ◌*◌, Bool, true, false, not, Option, none, some, List, [], ◌∷◌, ◌++◌, map, if◌then◌else◌,
  ◌==◌, text_eq, int_eq, Text, ℤ, pos, Result, ok, err, ◌>>=◌, ◌>>◌, fail_if, or_fail, contains,
  seconds_of, is_empty,
}
use mathlib.Core.List.{reverse}
use quiz.Scoring.{AnswerRecord, ScoringConfig, count_streak, remaining, calculate_score}
use quiz.Scoring.Float.{Float64}
use quiz.Match.{QuestionPackItem, PlayerState, Summary, LockReply, second}

pub data SubmitError : Type 0 where
  acquire_lock player_state_not_found questions_not_found invalid_token : SubmitError
  already_answered store_state : SubmitError

-- What the code asks of Redis.
pub data Action (F : Type 0) : Type 0 where
  locks unlocks : Action F
  stores : PlayerState F → Action F

-- What Redis and Postgres reply.
pub record Replies (F : Type 0) : Type 0 where
  pub lock : LockReply
  pub player_state : Option (Option (PlayerState F))
  pub questions : Option (List QuestionPackItem)
  pub summary : Option Summary
  pub stored : Bool

pub record Submission : Type 0 where
  pub question_token : Text
  pub answer : Text
  pub submitted_at : ℕ

-- `meta.PerQuestionSeconds` as a duration, or 15 seconds if the summary cannot be read.
pub per_question_timeout : Option Summary → ℤ
per_question_timeout none = pos (15 * second)
per_question_timeout (some s) = seconds_of s.per_question_seconds second

-- The first question with the token.
unfoldable pub find_question : Text → List QuestionPackItem → Option QuestionPackItem
find_question token [] = none
find_question token (q ∷ questions) =
    let rest = find_question token questions in if q.token == token then some q else rest

abbrev pub orders : List AnswerRecord → List ℤ
orders = map λ a. a.question_order

module _ (fl : Float64) (cfg : ScoringConfig fl.F) where
  -- The answer as it is recorded at the time `now`, for a player with the given answers.
  pub answer_record :
      List AnswerRecord → QuestionPackItem → Option Summary → Submission → ℕ → AnswerRecord
  answer_record answers q summary sub now =
      let is_correct = sub.answer == q.correct_answer in
      let timeout = per_question_timeout summary in
      record {
        question_order = q.order;
        question_token = sub.question_token;
        answer = sub.answer;
        submitted_at = sub.submitted_at;
        is_correct = is_correct;
        score_earned =
            calculate_score fl cfg is_correct (remaining timeout sub.submitted_at now) timeout
              (pos (count_streak (reverse answers)));
      }

  -- The checks in their order, and the state to be stored.
  unfoldable pub checked_state :
      Replies fl.F → Submission → ℕ → Result SubmitError (PlayerState fl.F)
  unfolding find_question answer_record
  checked_state replies sub now = do
    found ← or_fail replies.player_state player_state_not_found
    state ← or_fail found player_state_not_found
    questions ← or_fail replies.questions questions_not_found
    fail_if (is_empty questions) questions_not_found
    q ← or_fail (find_question sub.question_token questions) invalid_token
    fail_if (contains q.order (orders state.answers)) already_answered
    ok (record state {
      answers = state.answers ++ answer_record state.answers q replies.summary sub now ∷ [];
    })

  -- `StorePlayerState` on the checked state.
  unfoldable pub store_checked :
      Bool
      → Result SubmitError (PlayerState fl.F)
      → Result SubmitError (Unit {0}) × List (Action fl.F)
  store_checked stored (err e) = (err e, [])
  store_checked stored (ok state) = (if stored then ok tt else err store_state, stores state ∷ [])

  -- `LockMatch` and the deferred unlock around the body. `locks` is the SET NX, which is sent whatever
  -- the reply.
  unfoldable pub with_lock :
      LockReply
      → Result SubmitError (Unit {0}) × List (Action fl.F)
      → Result SubmitError (Unit {0}) × List (Action fl.F)
  with_lock LockReply.acquired (r, actions) = (r, locks ∷ actions ++ unlocks ∷ [])
  with_lock LockReply.held body = (err acquire_lock, locks ∷ [])
  with_lock LockReply.failed body = (err acquire_lock, locks ∷ [])

  unfoldable pub submit_answer :
      Replies fl.F → Submission → ℕ → Result SubmitError (Unit {0}) × List (Action fl.F)
  submit_answer replies sub now =
      with_lock replies.lock (store_checked replies.stored (checked_state replies sub now))
