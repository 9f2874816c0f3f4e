-- ===== src/Prelude/Counting.antt =====
-- The pigeonhole principle on lists without duplicates.
use Prim.Native.Nat.{◌≤◌, ◌<◌}
use mathlib.Core.Path.{◌≡◌, refl}
use mathlib.Core.Bool.{true, false, ◌||◌}
use mathlib.Core.List.{List, [], ◌∷◌, ◌++◌}
use native.Mathlib.Omega.{arith}
use quiz.Prelude.Tests.{if◌then◌else◌}
use quiz.Prelude.Lists.{length, All}
use quiz.Prelude.Keys.{Eq, ◌==◌, contains, Distinct}

module _ {ℓ} {A : Type ℓ} ⦃e : Eq A⦄ where
  -- The list without any occurrence of `a`.
  abbrev pub without : A → List A → List A
  without a [] = []
  without a (x ∷ xs) = let rest = without a xs in if x == a then rest else x ∷ rest

  length-without-le : (a : A) (xs : List A) → length (without a xs) ≤ length xs
  length-without-le a [] = omega arith
  length-without-le a (x ∷ xs) = ground (arith, length-without-le a xs)

  length-without-lt :
      (a : A) (xs : List A) → contains a xs ≡ true → length (without a xs) < length xs
  length-without-lt a [] h = absurd (cc)
  length-without-lt a (x ∷ xs) h = ground (arith, length-without-lt a xs, length-without-le a xs)

  contains-without :
      (a b : A) (xs : List A)
      → (a == b) ≡ false
      → contains b xs ≡ true
      → contains b (without a xs) ≡ true
  contains-without a b [] ne h = absurd (cc)
  contains-without a b (x ∷ xs) ne h =
      ground (arith, contains-without a b xs, e.beq_iff x a, e.beq_iff x b, e.beq_iff a b)

  All-without :
      (a : A) (xs ys : List A)
      → contains a xs ≡ false
      → All (λ b. contains b ys ≡ true) xs
      → All (λ b. contains b (without a ys) ≡ true) xs
  All-without a [] ys h all = tt
  All-without a (x ∷ xs) ys h all = (
    ground (arith, contains-without a x ys, e.beq_iff x a, e.beq_iff a x),
    All-without a xs ys (ground arith) all.1,
  )

  -- A list without duplicates whose values all stand in another is at most as long.
  pub length-le_of_Distinct :
      (xs ys : List A) → Distinct xs → All (λ a. contains a ys ≡ true) xs → length xs ≤ length ys
  length-le_of_Distinct [] ys d all = omega arith
  length-le_of_Distinct (x ∷ xs) ys d all = omega (
    arith,
    length-without-lt x ys all.0,
    length-le_of_Distinct xs (without x ys) d.1 (All-without x xs ys d.0 all.1),
  )

  pub contains-append :
      (a : A) (xs ys : List A) → contains a (xs ++ ys) ≡ (contains a xs || contains a ys)
  contains-append a [] ys = refl
  contains-append a (x ∷ xs) ys = ground (arith, contains-append a xs ys)

  -- Two lists without duplicates that share no value are together without duplicates.
  pub Distinct-append :
      (xs ys : List A)
      → Distinct xs
      → Distinct ys
      → All (λ a. contains a ys ≡ false) xs
      → Distinct (xs ++ ys)
  Distinct-append [] ys d d' apart = d'
  Distinct-append (x ∷ xs) ys d d' apart =
      (ground (arith, contains-append x xs ys, apart.0), Distinct-append xs ys d.1 d' apart.1)

  pub All-contains-false :
      (a : A) (xs : List A) → contains a xs ≡ false → All (λ x. contains x (a ∷ []) ≡ false) xs
  All-contains-false a [] h = tt
  All-contains-false a (x ∷ xs) h =
      (ground (arith, e.beq_iff a x, e.beq_iff x a), All-contains-false a xs (ground arith))
