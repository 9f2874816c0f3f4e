-- ===== src/Hub/Addresses.antt =====
-- Lists of registered addresses: the lemmas on `insert`, `erase` and `write` that the hub needs.
use quiz.Prelude.{
  ℕ, ◌≡◌, refl, true, false, some, List, [], ◌∷◌, map, arith, ◌==◌, nat_eq, All, Map, lookup,
  insert, erase, contains, Distinct, Bool-cases, insert-All, lookup-All, inl, inr,
}
use quiz.Hub.{Connection, write}

abbrev pub addresses : Map ℕ ℕ → List ℕ
addresses = map λ e. e.1

abbrev pub AllOpen : (ℕ → Connection) → Map ℕ ℕ → Type 0
AllOpen heap conns = All (λ e. (heap e.1).closed ≡ false) conns

pub lookup-contains :
    (u a : ℕ) (m : Map ℕ ℕ) → lookup u m ≡ some a → contains a (addresses m) ≡ true
lookup-contains u a [] h = absurd (cc)
lookup-contains u a ((j, w) ∷ m) h = ground (arith, lookup-contains u a m)

contains-insert :
    (u c b : ℕ) (m : Map ℕ ℕ)
    → (c == b) ≡ false
    → contains b (addresses m) ≡ false
    → contains b (addresses (insert u c m)) ≡ false
contains-insert u c b [] ne h = ground arith
contains-insert u c b ((j, w) ∷ m) ne h = ground (arith, contains-insert u c b m)

contains-erase :
    (u b : ℕ) (m : Map ℕ ℕ)
    → contains b (addresses m) ≡ false
    → contains b (addresses (erase u m)) ≡ false
contains-erase u b [] h = refl
contains-erase u b ((j, w) ∷ m) h = ground (arith, contains-erase u b m)

pub insert-separate :
    (u c : ℕ) (m : Map ℕ ℕ)
    → contains c (addresses m) ≡ false
    → Distinct (addresses m)
    → Distinct (addresses (insert u c m))
insert-separate u c [] h d = (refl, tt)
insert-separate u c ((j, w) ∷ m) h d =
    ground (arith, insert-separate u c m, contains-insert u c w m)

pub erase-separate :
    (u : ℕ) (m : Map ℕ ℕ) → Distinct (addresses m) → Distinct (addresses (erase u m))
erase-separate u [] d = tt
erase-separate u ((j, w) ∷ m) d = ground (arith, erase-separate u m d.1, contains-erase u w m)

-- Writing at an address that is not in the list changes nothing for it.
pub write-AllOpen :
    (heap : ℕ → Connection) (a : ℕ) (c : Connection) (m : Map ℕ ℕ)
    → contains a (addresses m) ≡ false
    → AllOpen heap m
    → AllOpen (write heap a c) m
write-AllOpen heap a c [] h o = tt
write-AllOpen heap a c ((j, w) ∷ m) h o =
    (ground arith, write-AllOpen heap a c m (ground arith) o.1)

pub insert-AllOpen :
    (heap : ℕ → Connection) (u old conn : ℕ) (c : Connection) (m : Map ℕ ℕ)
    → lookup u m ≡ some old
    → Distinct (addresses m)
    → (old == conn) ≡ false
    → (heap conn).closed ≡ false
    → AllOpen heap m
    → AllOpen (write heap old c) (insert u conn m)
insert-AllOpen heap u old conn c [] h d ne fresh o = absurd (cc)
insert-AllOpen heap u old conn c ((j, w) ∷ m) h d ne fresh o = elim (Bool-cases (j == u)) [
  | inl hit ↦
      let same : w ≡ old = ground arith in
      rw hit (ground arith, write-AllOpen heap old c m (ground arith) o.1)
  | inr miss ↦
      let found : lookup u m ≡ some old = ground arith in
      rw miss (
        ground (arith, lookup-contains u old m found),
        insert-AllOpen heap u old conn c m found d.1 ne fresh o.1,
      )
]

pub erased-address :
    (u old : ℕ) (m : Map ℕ ℕ)
    → lookup u m ≡ some old
    → Distinct (addresses m)
    → contains old (addresses (erase u m)) ≡ false
erased-address u old [] h d = refl
erased-address u old ((j, w) ∷ m) h d =
    ground (arith, contains-erase u w m, erased-address u old m, lookup-contains u old m)

pub insert-AllOpen_new :
    (heap : ℕ → Connection) (u conn : ℕ) (m : Map ℕ ℕ)
    → (heap conn).closed ≡ false
    → AllOpen heap m
    → AllOpen heap (insert u conn m)
insert-AllOpen_new heap u conn m fresh o =
    insert-All (λ e. (heap e.1).closed ≡ false) u conn m o fresh

pub lookup-AllOpen :
    (heap : ℕ → Connection) (u a : ℕ) (m : Map ℕ ℕ)
    → AllOpen heap m
    → lookup u m ≡ some a
    → (heap a).closed ≡ false
lookup-AllOpen heap u a m o e = lookup-All (λ p. (heap p.1).closed ≡ false) u m a o e
