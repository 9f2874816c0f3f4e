-- ===== src/Scoring/Float.antt =====
-- `float64` as the engine uses it: a type with operations, and what is documented of them.
use quiz.Prelude.{ℕ, ◌≡◌, ◌≤◌, Bool, false, ℤ, pos, ◌≤ℤ◌, ltb_ℤ, true, ◌^◌}

pub record Float64 : Type 1 where
  pub F : Type 0
  pub of_int : ℤ → F
  pub mul : F → F → F
  pub div : F → F → F
  pub lt : F → F → Bool
  pub zero : F
  pub one : F
  -- The conversion `int(x)`, which drops the fraction.
  pub trunc : F → ℤ

-- `a` is at most `b`: for finite values, `b < a` fails.
abbrev pub Le : (fl : Float64) → fl.F → fl.F → Type 0
Le fl a b = fl.lt b a ≡ false

-- The order is total on finite values; products, quotients and conversions round monotonically; an
-- integer of at most 53 bits is represented exactly.
pub record Laws (fl : Float64) : Type 0 where
  pub le_refl : (a : fl.F) → Le fl a a
  pub lt_trans : (a b c : fl.F) → fl.lt a b ≡ true → Le fl b c → fl.lt a c ≡ true
  pub zero_le_one : Le fl fl.zero fl.one
  pub of_int_mono : (a b : ℤ) → a ≤ℤ b → Le fl (fl.of_int a) (fl.of_int b)
  pub of_int_zero : fl.of_int (pos 0) ≡ fl.zero
  pub mul_mono : (a b c : fl.F) → Le fl fl.zero a → Le fl b c → Le fl (fl.mul a b) (fl.mul a c)
  pub mul_zero : (a : fl.F) → Le fl fl.zero a → fl.mul a fl.zero ≡ fl.zero
  pub mul_one : (a : fl.F) → fl.mul a fl.one ≡ a
  pub div_mono :
      (a b c : fl.F) → fl.lt fl.zero c ≡ true → Le fl a b → Le fl (fl.div a c) (fl.div b c)
  pub of_int_pos : (a : ℤ) → ltb_ℤ (pos 0) a ≡ true → fl.lt fl.zero (fl.of_int a) ≡ true
  pub trunc_mono : (a b : fl.F) → Le fl a b → fl.trunc a ≤ℤ fl.trunc b
  pub trunc-of_int : (n : ℕ) → n ≤ 2 ^ 53 → fl.trunc (fl.of_int (pos n)) ≡ pos n
