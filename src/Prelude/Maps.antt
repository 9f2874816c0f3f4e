-- ===== src/Prelude/Maps.antt =====
-- A Go map as an association list. A key may only be written through `insert`, which replaces;
-- the order of the list is that in which keys came, and carries no meaning for the program.
use mathlib.Core.Path.{◌≡◌, refl}
use mathlib.Core.List.{List, [], ◌∷◌}
use mathlib.Core.Option.{Option, none, some}
use mathlib.Core.Logic.{inl, inr}
use native.Mathlib.Omega.{arith}
use quiz.Prelude.Tests.{if◌then◌else◌, Bool-cases}
use quiz.Prelude.Keys.{Eq, ◌==◌, beq_self}
use quiz.Prelude.Lists.{All}

abbrev pub Map {ℓ κ} : Type ℓ → Type κ → Type (ℓ ⊔ κ)
Map K V = List (K × V)

module _ {ℓ κ} {K : Type ℓ} {V : Type κ} ⦃e : Eq K⦄ where
  -- `m[k]` with the `exists` flag.
  abbrev pub lookup : K → Map K V → Option V
  lookup k [] = none
  lookup k ((j, v) ∷ m) = if j == k then some v else lookup k m

  -- `m[k] = v`
  abbrev pub insert : K → V → Map K V → Map K V
  insert k v [] = (k, v) ∷ []
  insert k v ((j, w) ∷ m) = if j == k then (k, v) ∷ m else (j, w) ∷ insert k v m

  -- `delete(m, k)`
  abbrev pub erase : K → Map K V → Map K V
  erase k [] = []
  erase k ((j, w) ∷ m) = let rest = erase k m in if j == k then rest else (j, w) ∷ rest

  pub lookup-insert :
      (k j : K) (v : V) (m : Map K V)
      → lookup j (insert k v m) ≡ (if k == j then some v else lookup j m)
  lookup-insert k j v [] = refl
  lookup-insert k j v ((i, w) ∷ m) =
      ground (arith, e.beq_iff k j, e.beq_iff i k, e.beq_iff i j, lookup-insert k j v m)

  pub lookup-insert_self : (k : K) (v : V) (m : Map K V) → lookup k (insert k v m) ≡ some v
  lookup-insert_self k v m = ground (arith, lookup-insert k k v m, beq_self k)

  pub lookup-erase :
      (k j : K) (m : Map K V) → lookup j (erase k m) ≡ (if k == j then none else lookup j m)
  lookup-erase k j [] = ground arith
  lookup-erase k j ((i, w) ∷ m) =
      ground (arith, e.beq_iff k j, e.beq_iff i k, e.beq_iff i j, lookup-erase k j m)

  -- What holds of every entry holds of the one that is found.
  pub lookup-All :
      (P : K × V → Type 0) (k : K) (m : Map K V) (v : V) → All P m → lookup k m ≡ some v → P (k, v)
  lookup-All P k [] v h q = absurd (cc)
  lookup-All P k ((j, w) ∷ m) v h q = elim (Bool-cases (j == k)) [
    | inl hit ↦ let here : w ≡ v = ground arith in rw (← here, ← (e.beq_iff j k).0 hit) h.0
    | inr miss ↦ lookup-All P k m v h.1 (ground arith)
  ]

  pub insert-All :
      (P : K × V → Type 0) (k : K) (v : V) (m : Map K V) → All P m → P (k, v) → All P (insert k v m)
  insert-All P k v [] h p = (p, tt)
  insert-All P k v ((j, w) ∷ m) h p = ground (arith, insert-All P k v m h.1 p)

  pub erase-All : (P : K × V → Type 0) (k : K) (m : Map K V) → All P m → All P (erase k m)
  erase-All P k [] h = tt
  erase-All P k ((j, w) ∷ m) h = ground (arith, erase-All P k m h.1)
