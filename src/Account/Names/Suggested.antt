-- ===== src/Account/Names/Suggested.antt =====
-- What `GenerateUsernameSuggestions` returns.
use quiz.Prelude.{
  ℕ, zero, suc, ◌+◌, ◌≤◌, ◌<◌, ◌≡◌, refl, sym, ◌∙◌, arith, inl, inr, Bool, true, false, not, ◌&&◌,
  some, List, [], ◌∷◌, ◌++◌, if◌then◌else◌, ◌==◌, nat_eq, text_eq, text_beq_iff, ltb, leb, Text,
  is_empty, length, length-append, contains, Distinct, Distinct-append, All-contains-false, All,
  All-append, All-map, Bool-cases,
}
use quiz.Account.Names.{
  too_long, trim_right, validate_username, normal_name, sprintf_d, candidate_of, try_numbers,
  try_draws, generate_username_suggestions,
}

-- Two numbers below 1000 are printed alike only if they are equal.
sprintf_d_injective : (m n : ℕ) → m < 1000 → n < 1000 → sprintf_d m ≡ sprintf_d n → m ≡ n
unfolding sprintf_d
sprintf_d_injective m n hm hn e = ground arith

append_cancel : (s t u : Text) → s ++ t ≡ s ++ u → t ≡ u
append_cancel [] t u e = e
append_cancel (c ∷ s) t u e = append_cancel s t u (ground arith)

candidate_of_injective :
    (name : Text) (m n : ℕ)
    → m < 1000
    → n < 1000
    → candidate_of name m ≡ candidate_of name n
    → m ≡ n
unfolding candidate_of
candidate_of_injective name m n hm hn e =
    sprintf_d_injective m n hm hn
      (ground (arith, append_cancel name (95 ∷ sprintf_d m) (95 ∷ sprintf_d n) e))

-- The names that the loops have tried have the numbers below `bound`.
abbrev Tried : Text → ℕ → List Text → Type 0
Tried name bound found = All (λ c. (j : ℕ) × (j < bound) × (c ≡ candidate_of name j)) found

Tried-later :
    (name : Text) (m n : ℕ) (found : List Text) → m ≤ n → Tried name m found → Tried name n found
Tried-later name m n [] le t = tt
Tried-later name m n (c ∷ found) le ((j, lt, e), t) =
    ((j, omega arith, e), Tried-later name m n found le t)

Tried-fresh :
    (name : Text) (i : ℕ) (found : List Text)
    → i < 1000
    → Tried name i found
    → contains (candidate_of name i) found ≡ false
Tried-fresh name i [] lt t = refl
Tried-fresh name i (c ∷ found) lt ((j, below, e), t) =
    elim (Bool-cases (c == candidate_of name i)) [
      | inl same ↦
          let eq : candidate_of name j ≡ candidate_of name i =
            sym e ∙ (text_beq_iff c (candidate_of name i)).0 same in
          absurd
            (omega (arith, below, candidate_of_injective name j i (omega (arith, below)) lt eq))
      | inr other ↦ rw other (Tried-fresh name i found lt t)
    ]

-- What the loops keep: at most three suggestions, none of them twice, each free and of the given shape.
record IsOffer (free : Text → Bool) (name : Text) (bound : ℕ) (found : List Text) : Type 0 where
  few : length found ≤ 3
  distinct : Distinct found
  available : All (λ c. free c ≡ true) found
  tried : Tried name bound found

module _ (free : Text → Bool) (name : Text) where
  IsOffer-more :
      (bound i : ℕ) (found : List Text)
      → i < bound
      → length found < 3
      → contains (candidate_of name i) found ≡ false
      → free (candidate_of name i) ≡ true
      → IsOffer free name bound found
      → IsOffer free name bound (found ++ candidate_of name i ∷ [])
  IsOffer-more bound i found lt room new is_free o =
      let c = candidate_of name i in
      record {
        few = omega (arith, length-append found (c ∷ []));
        distinct =
            Distinct-append found (c ∷ []) o.distinct (refl, tt) (All-contains-false c found new);
        available =
            All-append (λ (d : Text). free d ≡ true) found (c ∷ []) o.available (is_free, tt);
        tried =
            All-append (λ (d : Text). (j : ℕ) × (j < bound) × (d ≡ candidate_of name j)) found
              (c ∷ []) o.tried ((i, lt, refl), tt);
      }

  later-IsOffer :
      (m n : ℕ) (found : List Text) → m ≤ n → IsOffer free name m found → IsOffer free name n found
  later-IsOffer m n found le o = record {
    few = o.few;
    distinct = o.distinct;
    available = o.available;
    tried = Tried-later name m n found le o.tried;
  }

  try_numbers-IsOffer :
      (rounds i : ℕ) (found : List Text)
      → i + rounds < 1000
      → length found < 3
      → IsOffer free name i found
      → IsOffer free name 1000 (try_numbers free name rounds i found)
  unfolding try_numbers
  try_numbers-IsOffer zero i found lt room o = later-IsOffer i 1000 found (omega arith) o
  try_numbers-IsOffer (suc rounds) i found lt room o =
      let c = candidate_of name i in
      let next = if free c then found ++ c ∷ [] else found in
      let kept : IsOffer free name (i + 1) next = elim (Bool-cases (free c)) [
        | inl is_free ↦ rw is_free (
            IsOffer-more (i + 1) i found (omega arith) room
              (Tried-fresh name i found (omega arith) o.tried) is_free
              (later-IsOffer i (i + 1) found (omega arith) o))
        | inr taken ↦ rw taken (later-IsOffer i (i + 1) found (omega arith) o)
      ] in
      elim (Bool-cases (leb 3 (length next))) [
        | inl enough ↦ rw enough (later-IsOffer (i + 1) 1000 next (omega arith) kept)
        | inr more ↦
            rw more (try_numbers-IsOffer rounds (i + 1) next (omega arith) (ground arith) kept)
      ]

  try_draws-IsOffer :
      (draws : List ℕ) (found out : List Text)
      → All (λ r. r < 900) draws
      → IsOffer free name 1000 found
      → try_draws free name draws found ≡ some out
      → IsOffer free name 1000 out × (length out ≡ 3)
  unfolding try_draws
  try_draws-IsOffer [] found out d o h =
      let full : (length found < 3 → ⊥) × (out ≡ found) = ground arith in
      let few = o.few in rw full.1 (o, ground (arith, full.0))
  try_draws-IsOffer (r ∷ draws) found out d o h =
      let c = candidate_of name (r + 100) in
      let next = if not (contains c found) && free c then found ++ c ∷ [] else found in
      elim (Bool-cases (ltb (length found) 3)) [
        | inr enough ↦
            let same : out ≡ found = ground arith in let few = o.few in rw same (o, ground arith)
        | inl room ↦
            let kept : IsOffer free name 1000 next =
              elim (Bool-cases (not (contains c found) && free c)) [
                | inl new ↦ rw new (
                    IsOffer-more 1000 (r + 100) found (omega (arith, d.0)) (ground arith)
                      (ground arith) (ground arith) o)
                | inr old ↦ rw old o
              ] in
            try_draws-IsOffer draws next out d.1 kept (ground arith)
      ]

-- Three suggestions come back, no two alike; each is the normalised name, an underscore and a
-- number, and for each the lookup has failed.
generate_username_suggestions_lem :
    (unicode_lower : Text → Text) (free : Text → Bool) (draws : List ℕ) (name : Text)
    (out : List Text)
    → All (λ r. r < 900) draws
    → generate_username_suggestions unicode_lower free draws name ≡ some out
    → (length out ≡ 3)
      × Distinct out
      × All (λ c. free c ≡ true) out
      × All (λ c. (i : ℕ) × (i < 1000) × (c ≡ candidate_of (normal_name unicode_lower name) i)) out
unfolding generate_username_suggestions
generate_username_suggestions_lem unicode_lower free draws name out d h =
    let username = normal_name unicode_lower name in
    let none_yet : IsOffer free username 1 [] = record {
      few = omega arith;
      distinct = tt;
      available = tt;
      tried = tt;
    } in
    let numbered =
      try_numbers-IsOffer free username 100 1 [] (omega arith) (omega arith) none_yet in
    let (o, three) =
      try_draws-IsOffer free username draws (try_numbers free username 100 1 []) out d numbered h in
    (three, o.distinct, o.available, o.tried)

is_empty-append : (s t : Text) → is_empty (s ++ t) ≡ (is_empty s && is_empty t)
is_empty-append [] t = refl
is_empty-append (c ∷ s) t = refl

trim_right-append :
    (s t : Text) → is_empty t ≡ false → trim_right t ≡ t → trim_right (s ++ t) ≡ s ++ t
unfolding trim_right
trim_right-append [] t full same = same
trim_right-append (c ∷ s) t full same =
    let rest = trim_right-append s t full same in rw rest (ground (arith, is_empty-append s t))

-- A candidate's number has a digit, and no candidate ends in a space.
candidate_of-size :
    (name : Text) (i : ℕ)
    → (length name + 2 ≤ length (candidate_of name i))
      × (trim_right (candidate_of name i) ≡ candidate_of name i)
unfolding candidate_of trim_right
candidate_of-size name i = (
  ground (arith, length-append name (95 ∷ sprintf_d i)),
  trim_right-append name (95 ∷ sprintf_d i) refl (ground arith),
)

candidate_of-too_long :
    (unicode_lower : Text → Text) (name : Text) (i : ℕ)
    → 9 ≤ length name
    → validate_username unicode_lower (candidate_of name i) ≡ some too_long
unfolding validate_username
candidate_of-too_long unicode_lower name i long =
    let (size, kept) = candidate_of-size name i in rw kept (ground (arith, size))

-- For a name whose normal form has nine or ten bytes, which is accepted, each suggestion is refused
-- as too long.
pub suggestions_refused :
    (unicode_lower : Text → Text) (free : Text → Bool) (draws : List ℕ) (name : Text)
    (out : List Text)
    → All (λ r. r < 900) draws
    → 9 ≤ length (normal_name unicode_lower name)
    → generate_username_suggestions unicode_lower free draws name ≡ some out
    → All (λ c. validate_username unicode_lower c ≡ some too_long) out
suggestions_refused unicode_lower free draws name out d long h =
    let (_, _, _, shaped) =
      generate_username_suggestions_lem unicode_lower free draws name out d h in
    let username = normal_name unicode_lower name in
    All-map (λ (c : Text). (i : ℕ) × (i < 1000) × (c ≡ candidate_of username i))
      (λ c. validate_username unicode_lower c ≡ some too_long)
      (λ c (i, _, e). rw e (candidate_of-too_long unicode_lower username i long)) out shaped
