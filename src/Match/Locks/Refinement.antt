-- ===== src/Match/Locks/Refinement.antt =====
-- The lock in Redis is the lock that is meant.
use quiz.Prelude.{
  ℕ, ◌+◌, ◌≤◌, ◌≡◌, refl, sym, ap, ◌∙◌, arith, inl, inr, Bool, Option, none, some, List, [], ◌∷◌,
  All, if◌then◌else◌, ◌==◌, text_eq, ltb, Text, Bool-cases,
}
use quiz.Match.{LockReply, acquired, held, failed}
use quiz.Match.Locks.{
  Redis, Laws, NxDone, lock_ttl, reply_of, is_value, lock_match, unlock, Call, locks, unlocks,
  time_of, run_calls, Held, shown, spec_lock, spec_unlock, spec_calls,
}

abbrev Ordered : ℕ → List Call → Type 0
Ordered t [] = Unit
Ordered t (c ∷ calls) = (t ≤ time_of c) × Ordered (time_of c) calls

abbrev pub IsFailure : LockReply → Type 0
IsFailure failed = Unit {0}
IsFailure _ = ⊥

module _ {S : Type 0} (r : Redis S) (laws : Laws r) (key : Text) where
  -- From a time on, Redis shows the lock as it is meant.
  abbrev Shows : S → Held → ℕ → Type 0
  Shows s h t = (t' : ℕ) → t ≤ t' → r.get s t' key ≡ shown h t'

  free-lock :
      (t : ℕ) (v : Text) (h : Held)
      → shown h t ≡ none
      → spec_lock t v h ≡ (acquired, some (v, t + lock_ttl))
  unfolding spec_lock
  free-lock t v none e = refl
  free-lock t v (some (w, d)) e = elim (Bool-cases (ltb t d)) [
    | inl live ↦ absurd (ground arith)
    | inr over ↦ rw over refl
  ]

  taken-lock : (t : ℕ) (v w : Text) (h : Held) → shown h t ≡ some w → spec_lock t v h ≡ (held, h)
  unfolding spec_lock
  taken-lock t v w none e = absurd (cc)
  taken-lock t v w (some (u, d)) e = elim (Bool-cases (ltb t d)) [
    | inl live ↦ rw live refl
    | inr over ↦ absurd (ground arith)
  ]

  lock_step :
      (t : ℕ) (v : Text) (s : S) (h : Held) (seen : Option Text) (answer : Option Bool)
      → Shows s h t
      → r.get s t key ≡ seen
      → (r.set_nx s t key v lock_ttl).0 ≡ answer
      → ¬ IsFailure (reply_of answer)
      → ((b : Bool) → answer ≡ some b → NxDone r s t key v lock_ttl seen b)
      → (reply_of answer ≡ (spec_lock t v h).0)
        × Shows (r.set_nx s t key v lock_ttl).1 (spec_lock t v h).1 t
  lock_step t v s h seen none m g e n done = absurd (n tt)
  lock_step t v s h none (some b) m g e n done =
      let spec = free-lock t v h (sym (m t (omega arith)) ∙ g) in
      let (is_true, now) = done b refl in rw (is_true, spec) (refl, now)
  lock_step t v s h (some w) (some b) m g e n done =
      let spec = taken-lock t v w h (sym (m t (omega arith)) ∙ g) in
      let (is_false, same) = done b refl in rw (is_false, spec, same) (refl, m)

  unlock-seen :
      (t : ℕ) (v : Text) (s : S) (seen : Option Text)
      → r.get s t key ≡ seen
      → unlock r key t v s ≡ (if is_value seen v then r.del s t key else s)
  unfolding unlock
  unlock-seen t v s seen e = ap (λ (o : Option Text). if is_value o v then r.del s t key else s) e

  unlock_step :
      (t : ℕ) (v : Text) (s : S) (h : Held)
      → Shows s h t
      → Shows (unlock r key t v s) (spec_unlock t v h) t
  unfolding spec_unlock
  unlock_step t v s none m = rw (unlock-seen t v s none (m t (omega arith))) m
  unlock_step t v s (some (w, d)) m = elim (Bool-cases (ltb t d)) [
    | inl live ↦
        let seen : r.get s t key ≡ some w = m t (omega arith) ∙ rw live refl in
        elim (Bool-cases (w == v)) [
          | inl own ↦ rw (unlock-seen t v s (some w) seen, live, own) (laws.del_done s t key)
          | inr other ↦ rw (unlock-seen t v s (some w) seen, live, other) m
        ]
    | inr over ↦
        let seen : r.get s t key ≡ none = m t (omega arith) ∙ rw over refl in
        rw (over, unlock-seen t v s none seen) m
  ]

  later : (s : S) (h : Held) (t u : ℕ) → t ≤ u → Shows s h t → Shows s h u
  later s h t u le m t' from = m t' (omega (arith, le, from))

  -- Redis gives the replies of the lock that is meant: in any history of calls at times that do not
  -- go back, where no command of Redis fails, a lock that is free at first is acquired exactly when
  -- nobody holds it or thirty seconds have passed, and only its holder can free it.
  pub run_calls-eq-spec_calls :
      (calls : List Call) (t : ℕ) (s : S) (h : Held)
      → ((t' : ℕ) → t ≤ t' → r.get s t' key ≡ shown h t')
      → Ordered t calls
      → All (λ reply. ¬ IsFailure reply) (run_calls r key calls s)
      → run_calls r key calls s ≡ spec_calls calls h
  unfolding run_calls spec_calls lock_match
  run_calls-eq-spec_calls [] t s h m o a = refl
  run_calls-eq-spec_calls (locks u v ∷ calls) t s h m (le, o) (n, a) =
      let (same, m') =
        lock_step u v s h (r.get s u key) (r.set_nx s u key v lock_ttl).0 (later s h t u le m) refl
          refl n (λ b e. laws.set_nx_done s u key v lock_ttl b e) in
      let rest =
        run_calls-eq-spec_calls calls u (r.set_nx s u key v lock_ttl).1 (spec_lock u v h).1 m' o
          a in
      ap (λ (x : LockReply). x ∷ run_calls r key calls (r.set_nx s u key v lock_ttl).1) same
      ∙ ap (λ (xs : List LockReply). (spec_lock u v h).0 ∷ xs) rest
  run_calls-eq-spec_calls (unlocks u v ∷ calls) t s h m (le, o) a =
      run_calls-eq-spec_calls calls u (unlock r key u v s) (spec_unlock u v h)
        (unlock_step u v s h (later s h t u le m)) o a
