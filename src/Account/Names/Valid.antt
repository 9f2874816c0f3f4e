-- ===== src/Account/Names/Valid.antt =====
-- Which names `ValidateUsername` accepts, and what `SetUsername` makes of them.
use quiz.Prelude.{
  ℕ, zero, suc, ◌+◌, ◌≤◌, ◌<◌, ◌≡◌, ◌↔◌, refl, ap, ◌∙◌, arith, inl, inr, Bool, true, ◌&&◌, none,
  some, List, [], ◌∷◌, map, ◌==◌, nat_eq, Text, codes, is_empty, length, length-append, length-map,
  Bool-cases, take,
}
use quiz.Account.Names.{
  space, trim_right, is_ascii, lower_byte, to_lower, all_name_bytes, matches_username,
  min_username_length, max_username_length, validate_username, normal_name, Attempt, suffix_of,
  guest_name, first_free, generate_guest_username,
}

-- A name as it is stored: three to ten bytes of `[a-z0-9_]`.
abbrev pub IsName : Text → Type 0
IsName s =
    (min_username_length ≤ length s) × (length s ≤ max_username_length) × (all_name_bytes s ≡ true)

is_empty-map : (s : Text) → is_empty (map lower_byte s) ≡ is_empty s
is_empty-map [] = refl
is_empty-map (c ∷ s) = refl

is_empty-length : (s : Text) → is_empty s ≡ true → length s ≡ 0
is_empty-length [] h = refl
is_empty-length (c ∷ s) h = cc

lower_byte-space : (c : ℕ) → (lower_byte c == space) ≡ (c == space)
unfolding lower_byte
lower_byte-space c = ground arith

trim_right-lower : (s : Text) → trim_right (map lower_byte s) ≡ map lower_byte (trim_right s)
unfolding trim_right
trim_right-lower [] = refl
trim_right-lower (c ∷ s) = elim (Bool-cases (is_empty (trim_right s) && c == space)) [
  | inl gone ↦ rw gone (
      ground (
        arith,
        trim_right-lower s,
        is_empty-map (trim_right s),
        lower_byte-space c,
        ap is_empty (trim_right-lower s),
      ))
  | inr kept ↦ rw kept (
      ground (
        arith,
        trim_right-lower s,
        is_empty-map (trim_right s),
        lower_byte-space c,
        ap is_empty (trim_right-lower s),
      ))
]

-- Bytes of names are no spaces, so there is nothing to trim.
trim_right-name : (s : Text) → all_name_bytes s ≡ true → trim_right s ≡ s
unfolding trim_right all_name_bytes
trim_right-name [] h = refl
trim_right-name (c ∷ s) h = ground (arith, trim_right-name s)

lower-name : (s : Text) → all_name_bytes s ≡ true → map lower_byte s ≡ s
unfolding all_name_bytes lower_byte
lower-name [] h = refl
lower-name (c ∷ s) h = ground (arith, lower-name s)

name-ascii : (s : Text) → all_name_bytes s ≡ true → is_ascii s ≡ true
unfolding all_name_bytes is_ascii
name-ascii [] h = refl
name-ascii (c ∷ s) h = ground (arith, name-ascii s)

trim-ascii : (s : Text) → is_ascii s ≡ true → is_ascii (trim_right s) ≡ true
unfolding trim_right is_ascii
trim-ascii [] h = refl
trim-ascii (c ∷ s) h = ground (arith, trim-ascii s)

module _ (unicode_lower : Text → Text) where
  normal_name-ascii :
      (s : Text) → is_ascii s ≡ true → normal_name unicode_lower s ≡ map lower_byte (trim_right s)
  unfolding normal_name to_lower
  normal_name-ascii s h = rw h (trim_right-lower s)

  pub validate_username_iff :
      (s : Text)
      → is_ascii s ≡ true
      → (validate_username unicode_lower s ≡ none) ↔ IsName (normal_name unicode_lower s)
  unfolding validate_username to_lower matches_username
  validate_username_iff s h = rw (normal_name-ascii s h) (
      let small = trim-ascii s h in
      let same = length-map lower_byte (trim_right s) in
      let filled = is_empty-length (map lower_byte (trim_right s)) in
      (λ valid. ground (arith, small, same, filled), λ name. ground (arith, small, same, filled)))

  -- A name in stored form is accepted, and is stored as it is.
  pub normal_name_idem :
      (s : Text)
      → IsName s
      → (validate_username unicode_lower s ≡ none) × (normal_name unicode_lower s ≡ s)
  normal_name_idem s (long, short, good) =
      let ascii = name-ascii s good in
      let same : normal_name unicode_lower s ≡ s =
        normal_name-ascii s ascii
        ∙ ap (map lower_byte) (trim_right-name s good)
        ∙ lower-name s good in
      ((validate_username_iff s ascii).1 (rw same (long, short, good)), same)

length-suffix_of : (picks : ℕ → ℕ) (j n : ℕ) → length (suffix_of picks j n) ≡ n
unfolding suffix_of
length-suffix_of picks j zero = omega arith
length-suffix_of picks j (suc n) = omega (arith, length-suffix_of picks (j + 1) n)

length-guest_name : (a : Attempt) → length (guest_name a) ≡ 12 + a.extra
unfolding guest_name
length-guest_name a = omega (
  arith,
  length-append (codes "guest_") (suffix_of a.picks 0 (6 + a.extra)),
  length-suffix_of a.picks 0 (6 + a.extra),
)

first_free-guest :
    (free : Text → Bool) (attempts : List Attempt) (name : Text)
    → first_free free attempts ≡ some name
    → (free name ≡ true) × ((a : Attempt) × (name ≡ guest_name a))
unfolding first_free
first_free-guest free [] name h = absurd (cc)
first_free-guest free (a ∷ attempts) name h = elim (Bool-cases (free (guest_name a))) [
  | inl yes_free ↦ let same : name ≡ guest_name a = ground arith in (rw same yes_free, (a, same))
  | inr taken ↦ first_free-guest free attempts name (ground arith)
]

-- A guest's name is free, and it is longer than any name that `SetUsername` stores: no user can
-- choose the name of a guest.
pub generate_guest_username_lem :
    (free : Text → Bool) (attempts : List Attempt) (name : Text)
    → generate_guest_username free attempts ≡ some name
    → (free name ≡ true) × (max_username_length < length name) × ¬ IsName name
unfolding generate_guest_username
generate_guest_username_lem free attempts name h =
    let (available, (a, same)) = first_free-guest free (take 50 attempts) name h in
    let long : max_username_length < length name =
      omega (arith, ap length same, length-guest_name a) in
    (available, long, λ good. absurd (omega (arith, good.1, long)))
