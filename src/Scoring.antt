-- ===== src/Scoring.antt =====
-- internal/match/scoring/engine.go. Durations are integers of nanoseconds. `float64` is a
-- parameter: the finite values that the engine computes with, Go's conversions from `int` and to
-- `int`, and the operations; `Laws` states what IEEE 754 and the Go specification promise of them.
pub mod Float
pub mod Bounds
pub mod Streaks
pub mod Whole
mod Tests
use quiz.Prelude.{
  ℕ, suc, ◌+◌, ◌*◌, Bool, true, false, not, Option, none, some, List, [], ◌∷◌, ltb, if◌then◌else◌,
  Text, ℤ, pos, ◌+ℤ◌, ◌-ℤ◌, ltb_ℤ, length,
}
use Float.{Float64}

-- `ScoringConfig`
pub record ScoringConfig (F : Type 0) : Type 0 where
  pub base_score : ℤ
  pub max_time_bonus : ℤ
  pub streak_bonus_percent : F
  pub max_streak_bonus : F

-- `AnswerRecord`, of this package and of the match package alike.
pub record AnswerRecord : Type 0 where
  pub question_order : ℤ
  pub question_token : Text
  pub answer : Text
  pub submitted_at : ℕ
  pub is_correct : Bool
  pub score_earned : ℤ

-- The inner loop of `ComputeFinalScore` and the streak count of `SubmitAnswer`: the answers before,
-- latest first, up to the first that is wrong.
pub count_streak : List AnswerRecord → ℕ
count_streak [] = 0
count_streak (a ∷ before) = let n = count_streak before in if a.is_correct then suc n else 0

-- `timeRemaining`: what is left of the timeout at the time `now`, at least 0.
pub remaining : ℤ → ℕ → ℕ → ℤ
remaining timeout submitted_at now =
    let left = timeout -ℤ (pos now -ℤ pos submitted_at) in
    if ltb_ℤ left (pos 0) then pos 0 else left

-- The variables of the loop of `ComputeFinalScore`; `before` holds the answers passed, latest first.
pub record Tally : Type 0 where
  pub before : List AnswerRecord
  pub total_score : ℤ
  pub correct_count : ℕ
  pub current_streak : ℕ
  pub max_streak : ℕ

abbrev pub start_tally : Tally
start_tally = record {
  before = [];
  total_score = pos 0;
  correct_count = 0;
  current_streak = 0;
  max_streak = 0;
}

pub streak_at_answer : List AnswerRecord → AnswerRecord → ℕ
streak_at_answer before ans = let n = count_streak before in if ans.is_correct then n + 1 else n

module _ (fl : Float64) where
  open fl use {F, of_int, mul, div, lt, zero, one, trunc}

  -- `timeRatio`, clamped to the range from 0 to 1.
  pub clamp_ratio : F → F
  clamp_ratio ratio =
      let upper = if lt one ratio then one else ratio in if lt upper zero then zero else upper

  pub time_bonus : ScoringConfig F → ℤ → ℤ → ℤ
  time_bonus cfg time_remaining timeout =
      trunc (
        mul (of_int cfg.max_time_bonus)
          (clamp_ratio (div (of_int time_remaining) (of_int timeout))))

  -- `streakMultiplier`, capped.
  pub streak_multiplier : ScoringConfig F → ℤ → F
  streak_multiplier cfg streak =
      let m = mul (of_int streak) cfg.streak_bonus_percent in
      if lt cfg.max_streak_bonus m then cfg.max_streak_bonus else m

  pub streak_bonus : ScoringConfig F → ℤ → ℤ
  streak_bonus cfg streak = trunc (mul (of_int cfg.base_score) (streak_multiplier cfg streak))

  pub calculate_score : ScoringConfig F → Bool → ℤ → ℤ → ℤ → ℤ
  calculate_score cfg is_correct time_remaining timeout current_streak =
      if not is_correct
      then pos 0
      else (let score = cfg.base_score in
          let timed =
            if ltb_ℤ (pos 0) timeout
            then score +ℤ time_bonus cfg time_remaining timeout
            else score in
          if ltb_ℤ (pos 0) current_streak then timed +ℤ streak_bonus cfg current_streak else timed)

  -- One round, at the time `now`.
  pub tally_answer : ScoringConfig F → ℤ → ℕ → AnswerRecord → Tally → Tally
  tally_answer cfg timeout now ans t =
      let current = if ans.is_correct then t.current_streak + 1 else 0 in
      let score =
        calculate_score cfg ans.is_correct (remaining timeout ans.submitted_at now) timeout
          (pos (streak_at_answer t.before ans)) in
      record {
        before = ans ∷ t.before;
        total_score = t.total_score +ℤ score;
        correct_count = if ans.is_correct then t.correct_count + 1 else t.correct_count;
        current_streak = current;
        max_streak = if ltb t.max_streak current then current else t.max_streak;
      }

  -- The loop; `clock i` is the time at which round `i` asks for it.
  pub tally_answers : ScoringConfig F → ℤ → (ℕ → ℕ) → ℕ → List AnswerRecord → Tally → Tally
  tally_answers cfg timeout clock i [] t = t
  tally_answers cfg timeout clock i (ans ∷ answers) t =
      tally_answers cfg timeout clock (i + 1) answers (tally_answer cfg timeout (clock i) ans t)

  -- Total score, accuracy and streak bonus percentage.
  pub compute_final_score : ScoringConfig F → List AnswerRecord → ℤ → (ℕ → ℕ) → ℤ × F × F
  compute_final_score cfg [] timeout clock = (pos 0, zero, zero)
  compute_final_score cfg (ans ∷ rest) timeout clock =
      let t = tally_answers cfg timeout clock 0 (ans ∷ rest) start_tally in
      (
        t.total_score,
        div (of_int (pos t.correct_count)) (of_int (pos (length (ans ∷ rest)))),
        if ltb 0 t.max_streak then streak_multiplier cfg (pos t.max_streak) else zero,
      )
