-- ===== src/Scoring/Bounds.antt =====
-- The score of one answer: its range, and that it grows with the time left and with the streak.
use quiz.Prelude.{
  ℕ, ◌≤◌, ◌≡◌, refl, sym, ap, subst, ◌∙◌, Bool, true, false, arith, ℤ, pos, ◌+ℤ◌, ◌≤ℤ◌, ltb_ℤ,
  +ℤ_parts, ◌^◌,
}
use quiz.Scoring.{
  ScoringConfig, clamp_ratio, time_bonus, streak_multiplier, streak_bonus, calculate_score,
}
use quiz.Scoring.Float.{Float64, Laws, Le}

-- A configuration as the defaults have it: whole numbers that a float holds exactly, and
-- percentages that are not negative.
pub record IsConfig (fl : Float64) (cfg : ScoringConfig fl.F) (base bonus : ℕ) : Type 0 where
  pub base_is : cfg.base_score ≡ pos base
  pub base_small : base ≤ 2 ^ 53
  pub bonus_is : cfg.max_time_bonus ≡ pos bonus
  pub bonus_small : bonus ≤ 2 ^ 53
  pub percent_nonneg : Le fl fl.zero cfg.streak_bonus_percent
  pub cap_nonneg : Le fl fl.zero cfg.max_streak_bonus

module _ (fl : Float64) (laws : Laws fl) where
  open fl use {F, of_int, mul, div, lt, zero, one, trunc}

  -- The clamped ratio lies between 0 and 1.
  clamp_bounds : (r : F) → Le fl zero (clamp_ratio fl r) × Le fl (clamp_ratio fl r) one
  unfolding clamp_ratio
  clamp_bounds r = ground (arith, laws.le_refl one, laws.le_refl zero, laws.zero_le_one)

  trunc-zero : trunc zero ≡ pos 0
  trunc-zero = ap trunc (sym laws.of_int_zero) ∙ laws.trunc-of_int 0 (omega arith)

  of_int-nonneg : (n : ℕ) → Le fl zero (of_int (pos n))
  of_int-nonneg n =
      subst (λ z. Le fl z (of_int (pos n))) laws.of_int_zero
        (laws.of_int_mono (pos 0) (pos n) (omega arith))

  product_nonneg : (n : ℕ) (r : F) → Le fl zero r → pos 0 ≤ℤ trunc (mul (of_int (pos n)) r)
  product_nonneg n r low =
      subst (λ z. z ≤ℤ trunc (mul (of_int (pos n)) r))
        (ap trunc (laws.mul_zero (of_int (pos n)) (of_int-nonneg n)) ∙ trunc-zero)
        (laws.trunc_mono _ _ (laws.mul_mono (of_int (pos n)) zero r (of_int-nonneg n) low))

  -- The part of `n` that a ratio of at most 1 takes is at most `n`.
  product-le : (n : ℕ) (r : F) → n ≤ 2 ^ 53 → Le fl r one → trunc (mul (of_int (pos n)) r) ≤ℤ pos n
  product-le n r small high =
      subst (λ z. trunc (mul (of_int (pos n)) r) ≤ℤ z)
        (ap trunc (laws.mul_one (of_int (pos n))) ∙ laws.trunc-of_int n small)
        (laws.trunc_mono _ _ (laws.mul_mono (of_int (pos n)) r one (of_int-nonneg n) high))

  module _ (cfg : ScoringConfig F) (base bonus : ℕ) (c : IsConfig fl cfg base bonus) where
    -- The most that a streak adds.
    abbrev pub streak_cap : ℤ
    streak_cap = trunc (mul (of_int cfg.base_score) cfg.max_streak_bonus)

    time_bonus_bounds :
        (left timeout : ℤ)
        → (pos 0 ≤ℤ time_bonus fl cfg left timeout) × (time_bonus fl cfg left timeout ≤ℤ pos bonus)
    unfolding time_bonus
    time_bonus_bounds left timeout =
        let r = div (of_int left) (of_int timeout) in
        rw c.bonus_is (
          product_nonneg bonus (clamp_ratio fl r) (clamp_bounds r).0,
          product-le bonus (clamp_ratio fl r) c.bonus_small (clamp_bounds r).1,
        )

    streak_multiplier_bounds :
        (k : ℕ)
        → Le fl zero (streak_multiplier fl cfg (pos k))
          × Le fl (streak_multiplier fl cfg (pos k)) cfg.max_streak_bonus
    unfolding streak_multiplier
    streak_multiplier_bounds k =
        let zero_part = laws.mul_zero (of_int (pos k)) (of_int-nonneg k) in
        let nonneg =
          laws.mul_mono (of_int (pos k)) zero cfg.streak_bonus_percent (of_int-nonneg k)
            c.percent_nonneg in
        ground (arith, zero_part, nonneg, c.cap_nonneg, laws.le_refl cfg.max_streak_bonus)

    streak_bonus_bounds :
        (k : ℕ)
        → (pos 0 ≤ℤ streak_bonus fl cfg (pos k)) × (streak_bonus fl cfg (pos k) ≤ℤ streak_cap)
    unfolding streak_bonus streak_multiplier
    streak_bonus_bounds k = rw c.base_is (
      product_nonneg base (streak_multiplier fl cfg (pos k)) (streak_multiplier_bounds k).0,
      laws.trunc_mono _ _ (
          laws.mul_mono (of_int (pos base)) (streak_multiplier fl cfg (pos k)) cfg.max_streak_bonus
            (of_int-nonneg base) (streak_multiplier_bounds k).1),
    )

    -- With a base and a time bonus from 0 to 2^53, and a streak percentage and a cap that are not
    -- negative: a wrong answer scores 0; a right one scores at least the base, and at most the
    -- base, the full time bonus and the capped streak bonus together, whatever time was left and
    -- for any streak that is not negative.
    pub calculate_score_bounds :
        (left timeout : ℤ) (streak : ℕ)
        → (calculate_score fl cfg false left timeout (pos streak) ≡ pos 0)
          × (pos base ≤ℤ calculate_score fl cfg true left timeout (pos streak))
          × (calculate_score fl cfg true left timeout (pos streak)
              ≤ℤ pos base +ℤ pos bonus +ℤ streak_cap)
    unfolding calculate_score
    calculate_score_bounds left timeout streak =
        let t = time_bonus_bounds left timeout in
        let s = streak_bonus_bounds streak in
        let timed = cfg.base_score +ℤ time_bonus fl cfg left timeout in
        let p1 = +ℤ_parts cfg.base_score (time_bonus fl cfg left timeout) in
        let p2 = +ℤ_parts timed (streak_bonus fl cfg (pos streak)) in
        let p3 = +ℤ_parts cfg.base_score (streak_bonus fl cfg (pos streak)) in
        let q1 = +ℤ_parts (pos base) (pos bonus) in
        let q2 = +ℤ_parts (pos base +ℤ pos bonus) streak_cap in
        (refl, ground (arith, c.base_is), ground (arith, c.base_is))

  clamp_mono : (r r' : F) → Le fl r r' → Le fl (clamp_ratio fl r) (clamp_ratio fl r')
  unfolding clamp_ratio
  clamp_mono r r' h = ground (
    arith,
    laws.le_refl one,
    laws.le_refl zero,
    laws.zero_le_one,
    laws.lt_trans one r r',
    laws.lt_trans r' zero r,
  )

  time_bonus_mono :
      (cfg : ScoringConfig F) (bonus : ℕ) (left left' timeout : ℤ)
      → cfg.max_time_bonus ≡ pos bonus
      → ltb_ℤ (pos 0) timeout ≡ true
      → left ≤ℤ left'
      → time_bonus fl cfg left timeout ≤ℤ time_bonus fl cfg left' timeout
  unfolding time_bonus
  time_bonus_mono cfg bonus left left' timeout b some_time h = laws.trunc_mono _ _ (
      laws.mul_mono (of_int cfg.max_time_bonus) _ _
        (subst (λ z. Le fl zero (of_int z)) (sym b) (of_int-nonneg bonus))
        (clamp_mono _ _ (
          laws.div_mono _ _ (of_int timeout) (laws.of_int_pos timeout some_time)
            (laws.of_int_mono left left' h))))

  -- If the time bonus is not negative, an answer with more time left never scores less.
  calculate_score_mono :
      (cfg : ScoringConfig F) (bonus : ℕ) (is_correct : Bool) (left left' timeout streak : ℤ)
      → cfg.max_time_bonus ≡ pos bonus
      → left ≤ℤ left'
      → calculate_score fl cfg is_correct left timeout streak
        ≤ℤ calculate_score fl cfg is_correct left' timeout streak
  unfolding calculate_score
  calculate_score_mono cfg bonus false left left' timeout streak b h = omega arith
  calculate_score_mono cfg bonus true left left' timeout streak b h =
      let m = time_bonus_mono cfg bonus left left' timeout b in
      let x = time_bonus fl cfg left timeout in
      let x' = time_bonus fl cfg left' timeout in
      let p = +ℤ_parts cfg.base_score x in
      let p' = +ℤ_parts cfg.base_score x' in
      let q = +ℤ_parts (cfg.base_score +ℤ x) (streak_bonus fl cfg streak) in
      let q' = +ℤ_parts (cfg.base_score +ℤ x') (streak_bonus fl cfg streak) in ground (arith, m)
