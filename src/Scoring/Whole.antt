-- ===== src/Scoring/Whole.antt =====
-- Integers in the place of `float64`, on which the tests compute: a product with a factor below one
-- is zero, and a quotient is its dividend.
use quiz.Prelude.{refl, arith, if◌then◌else◌, ℤ, pos, ltb_ℤ}
use quiz.Scoring.{ScoringConfig}
use quiz.Scoring.Float.{Float64, Laws}

abbrev pub whole : Float64
whole = record {
  F = ℤ;
  of_int = λ a. a;
  mul = λ a b. if ltb_ℤ (pos 0) b then a else pos 0;
  div = λ a b. a;
  lt = ltb_ℤ;
  zero = pos 0;
  one = pos 1;
  trunc = λ a. a;
}

pub whole-Laws : Laws whole
whole-Laws = record {
  le_refl = λ a. ground arith;
  lt_trans = λ a b c h k. ground arith;
  zero_le_one = refl;
  of_int_mono = λ a b h. ground arith;
  of_int_zero = refl;
  mul_mono = λ a b c h k. ground arith;
  mul_zero = λ a h. refl;
  mul_one = λ a. refl;
  div_mono = λ a b c h k. k;
  of_int_pos = λ a h. h;
  trunc_mono = λ a b h. ground arith;
  trunc-of_int = λ n h. refl;
}

abbrev pub config : ScoringConfig ℤ
config = record {
  base_score = pos 100;
  max_time_bonus = pos 50;
  streak_bonus_percent = pos 1;
  max_streak_bonus = pos 1;
}
