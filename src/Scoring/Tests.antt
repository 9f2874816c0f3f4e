-- ===== src/Scoring/Tests.antt =====
-- The scoring of internal/match/scoring/engine.go on small inputs, with integers in the place of
-- `float64`: a ratio below one counts as zero.
use mathlib.Core.List.{reverse}
use quiz.Prelude.{
  ℕ, ◌≡◌, refl, arith, Bool, true, false, List, [], ◌∷◌, codes, ltb, if◌then◌else◌, pos, ◌≤ℤ◌, ◌+ℤ◌,
  length,
}
use quiz.Scoring.{
  AnswerRecord, calculate_score, compute_final_score, streak_multiplier, time_bonus, clamp_ratio,
  streak_bonus,
}
use quiz.Scoring.Whole.{whole, whole-Laws, config}
use quiz.Scoring.Bounds.{IsConfig, streak_cap, calculate_score_bounds}
use quiz.Scoring.Streaks.{running_total, longest_run, correct_total, compute_final_score_lem}

config-IsConfig : IsConfig whole config 100 50
config-IsConfig = record {
  base_is = refl;
  base_small = omega arith;
  bonus_is = refl;
  bonus_small = omega arith;
  percent_nonneg = refl;
  cap_nonneg = refl;
}

calculate_score_bounds_example :
    (calculate_score whole config false (pos 7) (pos 10) (pos 2) ≡ pos 0)
    × (pos 100 ≤ℤ calculate_score whole config true (pos 7) (pos 10) (pos 2))
    × (calculate_score whole config true (pos 7) (pos 10) (pos 2)
        ≤ℤ pos 100 +ℤ pos 50 +ℤ streak_cap whole whole-Laws config 100 50 config-IsConfig)
calculate_score_bounds_example =
    calculate_score_bounds whole whole-Laws config 100 50 config-IsConfig (pos 7) (pos 10) 2

scored : calculate_score whole config true (pos 7) (pos 10) (pos 2) ≡ pos 250
unfolding calculate_score ◌+ℤ◌ time_bonus clamp_ratio streak_bonus streak_multiplier
scored = refl

abbrev answer : Bool → ℕ → AnswerRecord
answer is_correct at = record {
  question_order = pos at;
  question_token = [];
  answer = codes "a";
  submitted_at = at;
  is_correct = is_correct;
  score_earned = pos 0;
}

abbrev others : List AnswerRecord
others = answer true 2 ∷ answer false 3 ∷ answer true 4 ∷ []

compute_final_score_lem_example :
    let answers = answer true 1 ∷ others in
    let longest = longest_run (reverse answers) in
    compute_final_score whole config answers (pos 10) (λ i. 9) ≡ (
      running_total whole config (pos 10) (λ i. 9) 0 0 answers,
      whole.div (whole.of_int (pos (correct_total answers))) (whole.of_int (pos (length answers))),
      (if ltb 0 longest then streak_multiplier whole config (pos longest) else whole.zero),
    )
compute_final_score_lem_example =
    compute_final_score_lem whole config (answer true 1) others (pos 10) (λ i. 9)
