-- ===== src/Room/Code.antt =====
-- Room codes: what `generateRoomCode` returns, and when it returns.
use quiz.Prelude.{
  ℕ, ◌+◌, ◌≤◌, ◌<◌, ◌≡◌, true, false, none, some, List, [], ◌∷◌, arith, All, Text, text_eq, nat_eq,
  beq_self, text_beq_iff, lookup, lookup-erase, erase, length, contains, Distinct, is_some,
  Option-cases, inl, inr,
}
use quiz.Room.{Rooms, sprintf_06d, code_of_draw, generate_room_code}

-- A code as `GET /v1/rooms/{room_code}` accepts it: six digits.
abbrev pub IsDigits : Text → Type 0
IsDigits s = (length s ≡ 6) × All (λ c. (48 ≤ c) × (c ≤ 57)) s

sprintf_06d-IsDigits : (n : ℕ) → IsDigits (sprintf_06d n)
unfolding sprintf_06d
sprintf_06d-IsDigits n = omega arith

-- Two numbers of at most six digits are printed alike only if they are equal.
sprintf_06d_injective :
    (n m : ℕ) → n < 1000000 → m < 1000000 → sprintf_06d n ≡ sprintf_06d m → n ≡ m
unfolding sprintf_06d
sprintf_06d_injective n m h k e = ground arith

abbrev IsTaken : Rooms → ℕ → Type 0
IsTaken rooms r = is_some (lookup (code_of_draw r) rooms) ≡ true

-- A code that `generateRoomCode` returns is that of one of its draws, is six digits, and names no
-- room of the map.
pub generate_room_code-fresh :
    (draws : List ℕ) (rooms : Rooms) (code : Text)
    → generate_room_code draws rooms ≡ some code
    → (r : ℕ) × (contains r draws ≡ true)
      × (code ≡ code_of_draw r)
      × IsDigits code
      × (lookup code rooms ≡ none)
unfolding generate_room_code
generate_room_code-fresh [] rooms code h = absurd (cc)
generate_room_code-fresh (r ∷ draws) rooms code h =
    elim (Option-cases (lookup (code_of_draw r) rooms)) [
      | inl free ↦
          let same : code ≡ code_of_draw r = ground arith in
          (
            r,
            ground (arith, beq_self r),
            same,
            rw same (sprintf_06d-IsDigits (100000 + r)),
            rw same free,
          )
      | inr (room, taken) ↦
          let (s, within, same, digits, fresh) =
            generate_room_code-fresh draws rooms code (ground arith) in
          (s, ground arith, same, digits, fresh)
    ]

-- The generator goes on drawing exactly as long as every draw is the code of an existing room.
generate_room_code-none :
    (draws : List ℕ) (rooms : Rooms)
    → generate_room_code draws rooms ≡ none
    → All (IsTaken rooms) draws
unfolding generate_room_code
generate_room_code-none [] rooms h = tt
generate_room_code-none (r ∷ draws) rooms h = ground (arith, generate_room_code-none draws rooms)

length-erase-le : (k : Text) (m : Rooms) → length (erase k m) ≤ length m
length-erase-le k [] = omega arith
length-erase-le k ((j, w) ∷ m) = ground (arith, length-erase-le k m)

length-erase-lt :
    (k : Text) (m : Rooms) → is_some (lookup k m) ≡ true → length (erase k m) < length m
length-erase-lt k [] h = absurd (cc)
length-erase-lt k ((j, w) ∷ m) h = ground (arith, length-erase-lt k m, length-erase-le k m)

abbrev IsDraw : ℕ → Type 0
IsDraw r = r < 900000

IsTaken-erase :
    (r : ℕ) (rooms : Rooms) (ds : List ℕ)
    → IsDraw r
    → All IsDraw ds
    → contains r ds ≡ false
    → All (IsTaken rooms) ds
    → All (IsTaken (erase (code_of_draw r) rooms)) ds
IsTaken-erase r rooms [] b bs c h = tt
IsTaken-erase r rooms (d ∷ ds) b bs c h = (
  ground (
    arith,
    lookup-erase (code_of_draw r) (code_of_draw d) rooms,
    text_beq_iff (code_of_draw r) (code_of_draw d),
    sprintf_06d_injective (100000 + r) (100000 + d),
  ),
  IsTaken-erase r rooms ds b bs.1 (ground arith) h.1,
)

taken_pigeonhole :
    (draws : List ℕ) (rooms : Rooms)
    → All IsDraw draws
    → Distinct draws
    → All (IsTaken rooms) draws
    → length draws ≤ length rooms
taken_pigeonhole [] rooms b d h = omega arith
taken_pigeonhole (r ∷ draws) rooms b d h = omega (
  arith,
  length-erase-lt (code_of_draw r) rooms h.0,
  taken_pigeonhole draws (erase (code_of_draw r) rooms) b.1 d.1
      (IsTaken-erase r rooms draws b.0 b.1 d.0 h.1),
)

-- `generateRoomCode` returns: among more different draws than there are rooms, one is free.
pub generate_room_code_total :
    (draws : List ℕ) (rooms : Rooms)
    → All IsDraw draws
    → Distinct draws
    → length rooms < length draws
    → (code : Text) × (generate_room_code draws rooms ≡ some code)
generate_room_code_total draws rooms b d more =
    elim (Option-cases (generate_room_code draws rooms)) [
      | inl stuck ↦ absurd (
          omega
            (arith, taken_pigeonhole draws rooms b d (generate_room_code-none draws rooms stuck)))
      | inr (code, e) ↦ (code, e)
    ]
