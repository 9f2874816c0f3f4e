-- ===== src/Queue/Position.antt =====
-- `Dequeue`, `GetPosition` and `ShouldOfferBot`.
use mathlib.Core.List.{reverse, reverse-cons}
use quiz.Prelude.{
  ℕ, ◌+◌, ◌-◌, ◌*◌, ◌≤◌, ◌<◌, ◌≡◌, ◌≢◌, ◌↔◌, refl, ap, true, false, none, some, [], ◌∷◌, ◌++◌,
  arith, ◌==◌, if◌then◌else◌, lookup, lookup-erase, length, length-append, Option-cases, inl, inr,
  nat_eq, ok, err, pos_part, beq_self, Bool-cases,
}
use quiz.Queue.{
  WaitingPlayer, Waiting, Manager, dequeue, token_not_found, position_from, get_position, second,
  should_offer_bot,
}

-- `Dequeue` succeeds exactly on a token in the queue, and afterwards that token is gone and every
-- other token has the entry that it had.
dequeue_lem :
    (token : ℕ) (m : Manager)
    → (((dequeue token m).0 ≡ ok tt) ↔ (lookup token m.waiting ≢ none))
      × ((j : ℕ)
          → lookup j (dequeue token m).1.waiting
            ≡ (if token == j then none else lookup j m.waiting))
unfolding dequeue
dequeue_lem token m = elim (Option-cases (lookup token m.waiting)) [
  | inl e ↦ ((λ h. ground arith, λ h. absurd (h e)), λ j. ground arith)
  | inr (p, e) ↦
      ((λ h. ground arith, λ h. ground arith), λ j. ground (arith, lookup-erase token j m.waiting))
]

-- A token may be dequeued once: a second `Dequeue` reports that it is unknown.
dequeue_twice :
    (token : ℕ) (m : Manager) → (dequeue token (dequeue token m).1).0 ≡ err token_not_found
unfolding dequeue
dequeue_twice token m = ground (arith, lookup-erase token token m.waiting, beq_self token)

position_from-append :
    (t i : ℕ) (m n : Waiting)
    → lookup t m ≡ none
    → position_from t i (m ++ n) ≡ position_from t (i + length m) n
unfolding position_from
position_from-append t i [] n h = ap (λ k. position_from t k n) (omega arith)
position_from-append t i ((s, p) ∷ m) n h =
    let shift : i + 1 + length m ≡ i + length ((s, p) ∷ m) = omega arith in
    ground (arith, position_from-append t (i + 1) m n, ap (λ k. position_from t k n) shift)

lookup-append :
    (t : ℕ) (m n : Waiting) → lookup t m ≡ none → lookup t n ≡ none → lookup t (m ++ n) ≡ none
lookup-append t [] n h k = k
lookup-append t ((s, p) ∷ m) n h k = ground (arith, lookup-append t m n)

lookup-reverse : (t : ℕ) (m : Waiting) → lookup t m ≡ none → lookup t (reverse m) ≡ none
lookup-reverse t [] h = h
lookup-reverse t ((s, p) ∷ m) h =
    rw (reverse-cons (s, p) m)
      (lookup-append t (reverse m) ((s, p) ∷ []) (lookup-reverse t m (ground arith)) (ground arith))

length-reverse : (m : Waiting) → length (reverse m) ≡ length m
length-reverse [] = refl
length-reverse (e ∷ m) =
    omega
      (arith, ap length (reverse-cons e m), length-append (reverse m) (e ∷ []), length-reverse m)

-- For every queue and its first entry in one order of visiting, that order gives the entry's token
-- position 0 and the reverse order gives it the last position.
get_position_unordered :
    (t : ℕ) (p : WaitingPlayer) (rest : Waiting) (m : Manager)
    → lookup t rest ≡ none
    → m.waiting ≡ (t, p) ∷ rest
    → (get_position (λ w. w) t m ≡ some 0) × (get_position reverse t m ≡ some (length rest))
unfolding get_position position_from
get_position_unordered t p rest m h e = (
  rw e (ground (arith, beq_self t)),
  rw (e, reverse-cons (t, p) rest)
      (rw (position_from-append t 0 (reverse rest) ((t, p) ∷ []) (lookup-reverse t rest h))
        (ground (arith, beq_self t, length-reverse rest))),
)

-- Whatever the order of visiting, a token in the queue has a position below the number of entries,
-- and any other token has none.
position_from-bounds :
    (t i : ℕ) (m : Waiting)
    → (lookup t m ≡ none → position_from t i m ≡ none)
      × (lookup t m ≢ none → (k : ℕ) × (position_from t i m ≡ some k) × (k < i + length m))
unfolding position_from
position_from-bounds t i [] = (λ h. refl, λ h. absurd (h refl))
position_from-bounds t i ((s, p) ∷ m) = elim (Bool-cases (s == t)) [
  | inl hit ↦ (λ h. ground arith, λ h. (i, ground arith, omega arith))
  | inr miss ↦
      let (absent, present) = position_from-bounds t (i + 1) m in
      (λ h. ground (arith, absent), λ h. later miss (present (ground arith)))
]
  where
    later :
        s == t ≡ false
        → ((k : ℕ) × (position_from t (i + 1) m ≡ some k) × (k < i + 1 + length m))
        → (k : ℕ) × (position_from t i ((s, p) ∷ m) ≡ some k) × (k < i + length ((s, p) ∷ m))
    later miss (k, at, below) = (k, ground arith, omega arith)

-- A bot is offered exactly to a token in the queue whose player accepts bots and has waited at
-- least the configured number of seconds.
should_offer_bot_iff :
    (now token : ℕ) (m : Manager)
    → (should_offer_bot now token m ≡ true) ↔ (
        (p : WaitingPlayer) × (lookup token m.waiting ≡ some p)
        × (pos_part m.bot_wait_sec * second ≤ now - p.queued_at)
        × (p.bot_ok ≡ true))
unfolding should_offer_bot
should_offer_bot_iff now token m = elim (Option-cases (lookup token m.waiting)) [
  | inl e ↦ (λ h. absurd (ground arith), λ h. absurd (ground arith))
  | inr (p, e) ↦ (λ h. (p, e, ground arith, ground arith), λ h. ground arith)
]
