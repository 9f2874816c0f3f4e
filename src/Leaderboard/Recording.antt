-- ===== src/Leaderboard/Recording.antt =====
-- What the transactions of a recorded result add to the sorted sets.
use quiz.Prelude.{
  ℕ, suc, length, ◌≡◌, refl, ap, false, ◌&&◌, List, [], ◌∷◌, arith, Text, contains, Distinct,
  text_eq, text_beq_iff, ◌==◌, beq_self, if◌then◌else◌, ℤ, pos, ◌+ℤ◌, add-pos_zero, pos_zero-add,
  is_empty, Bool-cases, inl, inr,
}
use quiz.Leaderboard.{
  Service, RecordRequest, Command, z_incr_by, h_incr_by, h_set, expire, leaderboard_key,
  entry_commands, update_window, record_windows, record_result,
}
use quiz.Leaderboard.Keys.{leaderboard_key_injective}

-- What commands add to the score of a member in the sorted set of a key.
z_total : Text → Text → List Command → ℤ
z_total key member [] = pos 0
z_total key member (z_incr_by k n m ∷ cs) =
    let rest = z_total key member cs in if (k == key) && (m == member) then n +ℤ rest else rest
z_total key member (h_incr_by k f n ∷ cs) = z_total key member cs
z_total key member (h_set k f v ∷ cs) = z_total key member cs
z_total key member (expire k t ∷ cs) = z_total key member cs

pub z_totals : Text → Text → List (List Command) → ℤ
z_totals key member [] = pos 0
z_totals key member (cs ∷ rest) = z_total key member cs +ℤ z_totals key member rest

module _ (user_text : ℕ → Text) where
  update_window-total :
      (s : Service) (w : Text) (req : RecordRequest) (key member : Text)
      → z_total key member (update_window user_text s w req) ≡ (
          if (leaderboard_key s w == key) && (user_text req.user_id == member)
          then req.score
          else pos 0)
  unfolding update_window entry_commands z_total
  update_window-total s w req key member = ground (arith, add-pos_zero req.score)

  -- The windows of a run that succeeds in all of them.
  all_windows_total :
      (s : Service) (req : RecordRequest) (windows : List Text) (w member : Text)
      → Distinct windows
      → z_totals
          (leaderboard_key s w)
          member
          (record_windows user_text s req (λ x. false) windows).1
        ≡ (if contains w windows && (user_text req.user_id == member) then req.score else pos 0)
  unfolding record_windows z_totals
  all_windows_total s req [] w member d = refl
  all_windows_total s req (v ∷ windows) w member d =
      let one = update_window-total s v req (leaderboard_key s w) member in
      let others = all_windows_total s req windows w member d.1 in
      elim (Bool-cases (v == w)) [
        | inl same ↦
            let e : v ≡ w = (text_beq_iff v w).0 same in
            ground (
              arith,
              one,
              others,
              beq_self (leaderboard_key s w),
              add-pos_zero req.score,
              add-pos_zero (pos 0),
              ap (leaderboard_key s) e,
              ap (λ x. contains x windows) e,
            )
        | inr differ ↦
            let apart : (leaderboard_key s v == leaderboard_key s w) ≡ false = ground (
              arith,
              text_beq_iff (leaderboard_key s v) (leaderboard_key s w),
              leaderboard_key_injective s v w,
              text_beq_iff v w,
            ) in
            ground (arith, one, others, pos_zero-add req.score, add-pos_zero (pos 0))
      ]

  record_windows-length :
      (s : Service) (req : RecordRequest) (windows : List Text)
      → length (record_windows user_text s req (λ x. false) windows).1 ≡ length windows
  unfolding record_windows
  record_windows-length s req [] = refl
  record_windows-length s req (w ∷ windows) = ap suc (record_windows-length s req windows)

  -- If no window is named twice, an eligible result that meets no error adds its score once to the
  -- player's entry of each window that it names (by default those of the service), and nothing to
  -- the entry of another player or of another window. There is one transaction for each of these
  -- windows, and none at all for a result that is not eligible.
  pub record_result_lem :
      (s : Service) (req : RecordRequest) (w member : Text)
      → Distinct (if is_empty req.windows then s.windows else req.windows)
      → (z_totals (leaderboard_key s w) member (record_result user_text s req (λ x. false)).1 ≡ (
          if req.eligible
            && (contains w (if is_empty req.windows then s.windows else req.windows)
                && (user_text req.user_id == member))
          then req.score
          else pos 0))
        × (length (record_result user_text s req (λ x. false)).1 ≡ (
            if req.eligible
            then length (if is_empty req.windows then s.windows else req.windows)
            else 0))
  unfolding record_result
  record_result_lem s req w member d =
      let windows = if is_empty req.windows then s.windows else req.windows in
      elim (Bool-cases req.eligible) [
        | inl yes_eligible ↦ (
          ground (arith, all_windows_total s req windows w member d),
          ground (arith, record_windows-length s req windows),
        )
        | inr refused ↦ (rw refused (unfold z_totals in refl), rw refused refl)
      ]
