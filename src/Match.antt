-- ===== src/Match.antt =====
-- internal/match/service.go, state.go and types.go: answering and finishing a match. UUIDs are
-- numbers, times are nanoseconds, Go strings are byte lists. Redis and Postgres are not part of the
-- repository: what a call of them returns is an argument (`none` for an error), and what the code
-- asks of them is the list of actions that it returns beside its result.
pub mod Answering
pub mod Finalize
pub mod Creating
pub mod Locks
mod Tests
use quiz.Prelude.{ℕ, Bool, Option, List, Text, ℤ, pos, ◌*◌}
use quiz.Scoring.{AnswerRecord}

-- `QuestionPackItem`
pub record QuestionPackItem : Type 0 where
  pub order : ℤ
  pub id : Text
  pub prompt : Text
  pub options : List Text
  pub token : Text
  pub correct_answer : Text

-- The constants of `MatchMode`.
pub data MatchMode : Type 0 where
  random_1v1 private_room bot_fill : MatchMode

pub data MatchStatus : Type 0 where
  pending active completed timeout cancelled : MatchStatus

-- The constants of `PlayerStatus`.
pub data PlayerStatus : Type 0 where
  queued active completed left_early timeout : PlayerStatus

-- `PlayerState`, over the type of floats.
pub record PlayerState (F : Type 0) : Type 0 where
  pub match_id : ℕ
  pub user_id : ℕ
  pub is_guest : Bool
  pub username : Text
  pub joined_at : ℕ
  pub left_at : Option ℕ
  pub final_score : Option ℤ
  pub status : PlayerStatus
  pub accuracy : Option F
  pub streak_bonus_pct : Option F
  pub answers : List AnswerRecord

abbrev pub second : ℕ
second = 1_000_000_000

-- The row that `GetSummary` returns, as far as it is used; `room_code` is the string under that key
-- of the metadata, empty if there is none.
pub record Summary : Type 0 where
  pub per_question_seconds : ℤ
  pub leaderboard_eligible : Bool
  pub mode : MatchMode
  pub room_code : Text

-- What `LockMatch` returns: the lock, that another holds it, or an error.
pub data LockReply : Type 0 where
  acquired held failed : LockReply
