-- ===== src/Leaderboard/Keys.antt =====
-- The Redis keys of the leaderboards do not collide.
use quiz.Prelude.{ℕ, ◌≡◌, ◌≢◌, ap, sym, [], ◌∷◌, ◌++◌, arith, Text, codes, text_eq, All}
use quiz.Leaderboard.{
  Service, leaderboard_key, private_room_leaderboard_key, default_windows, daily, weekly, monthly,
  all_time,
}

append-cancel_left : (s t u : Text) → s ++ t ≡ s ++ u → t ≡ u
append-cancel_left [] t u h = h
append-cancel_left (c ∷ s) t u h = append-cancel_left s t u (ground arith)

pub leaderboard_key_injective :
    (s : Service) (w v : Text) → leaderboard_key s w ≡ leaderboard_key s v → w ≡ v
unfolding leaderboard_key
leaderboard_key_injective s w v h =
    append-cancel_left (codes ":") w v
      (append-cancel_left s.prefix (codes ":" ++ w) (codes ":" ++ v) h)

-- The first byte of a key behind the prefix and the colon.
abbrev second_byte : Text → ℕ
second_byte [] = 0
second_byte (a ∷ []) = 0
second_byte (a ∷ b ∷ s) = b

tail_differs :
    (w code : Text)
    → second_byte (codes ":" ++ w) ≢ b'p'
    → codes ":" ++ w ≢ codes ":private_room:" ++ code
tail_differs w code ne h = ne (ap second_byte h)

-- For every prefix, two different windows of a service have different keys, and the key of a private
-- room's leaderboard, whatever its code, is none of those of the four supported windows.
leaderboard_keys_apart :
    (s : Service) (room_code w v : Text)
    → w ≢ v
    → (leaderboard_key s w ≢ leaderboard_key s v)
      × All (λ x. private_room_leaderboard_key s room_code ≢ leaderboard_key s x) default_windows
unfolding leaderboard_key private_room_leaderboard_key
leaderboard_keys_apart s room_code w v ne = (
  λ h. ne (leaderboard_key_injective s w v h),
  (
    apart daily (λ e. omega arith),
    (
      apart weekly (λ e. omega arith),
      (apart monthly (λ e. omega arith), (apart all_time (λ e. omega arith), tt)),
    ),
  ),
)
  where
    apart :
        (x : Text)
        → second_byte (codes ":" ++ x) ≢ b'p'
        → s.prefix ++ (codes ":private_room:" ++ room_code) ≢ s.prefix ++ (codes ":" ++ x)
    apart x far h =
        tail_differs x room_code far (
          sym
            (append-cancel_left s.prefix (codes ":private_room:" ++ room_code) (codes ":" ++ x) h))
