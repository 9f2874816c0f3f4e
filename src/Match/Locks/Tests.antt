-- ===== src/Match/Locks/Tests.antt =====
-- The lock of internal/match/state.go on a store of one key.
use quiz.Prelude.{
  ℕ, ◌+◌, ◌*◌, ◌≡◌, refl, ap, arith, inl, inr, Bool, true, false, Option, none, some, List, [], ◌∷◌,
  ◌++◌, ltb, Text, codes, text_beq, Bool-cases, All,
}
use quiz.Match.{acquired, held, second}
use quiz.Match.Locks.{
  Redis, Laws, NxDone, lock_key, lock_match, unlock, Call, locks, unlocks, run_calls, Held, shown,
  spec_calls,
}
use quiz.Match.Locks.Refinement.{IsFailure, run_calls-eq-spec_calls}

abbrev set_free : Held → ℕ → Text → ℕ → Option Text → Option Bool × Held
set_free s t v ttl none = (some true, some (v, t + ttl))
set_free s t v ttl (some w) = (some false, s)

-- Any key is the one key.
abbrev one_key : Redis Held
one_key = record {
  set_nx = λ s t key v ttl. set_free s t v ttl (shown s t);
  get = λ s t key. shown s t;
  del = λ s t key. none;
}

answered :
    (s : Held) (t : ℕ) (key v : Text) (ttl : ℕ) (b : Bool)
    → (one_key.set_nx s t key v ttl).0 ≡ some b
    → NxDone one_key s t key v ttl (one_key.get s t key) b
answered none t key v ttl b h = (ground arith, λ t' le. refl)
answered (some (w, d)) t key v ttl b h =
    let lock : Held = some (w, d) in
    elim (Bool-cases (ltb t d)) [
      | inl live ↦
          let seen : shown lock t ≡ some w = rw live refl in
          rw seen (ground (arith, live), ap (λ (o : Option Text). (set_free lock t v ttl o).1) seen)
      | inr over ↦
          let seen : shown lock t ≡ none = rw over refl in
          rw seen (
            ground (arith, over),
            λ t' le. ap (λ (o : Option Text). shown (set_free lock t v ttl o).1 t') seen,
          )
    ]

one_key-Laws : Laws one_key
one_key-Laws = record { set_nx_done = answered; del_done = λ s t key t' le. refl }

abbrev key : Text
key = lock_key (λ n. n ∷ []) 8

-- The second holder waits until the first has let go; the third until the deadline of the second.
abbrev calls : List Call
calls =
    locks 0 (codes "a")
    ∷ locks 1 (codes "b")
    ∷ unlocks 2 (codes "a")
    ∷ locks 3 (codes "b")
    ∷ unlocks 4 (codes "a")
    ∷ locks 5 (codes "c")
    ∷ locks (31 * second) (codes "c")
    ∷ []

replies : run_calls one_key key calls none ≡ acquired ∷ held ∷ acquired ∷ held ∷ acquired ∷ []
unfolding run_calls lock_match unlock text_beq
replies = refl

answers : All (λ reply. ¬ IsFailure reply) (run_calls one_key key calls none)
unfolding run_calls lock_match unlock text_beq
answers = ((λ f. f), ((λ f. f), ((λ f. f), ((λ f. f), ((λ f. f), tt)))))

run_calls-eq-spec_calls_example : run_calls one_key key calls none ≡ spec_calls calls none
run_calls-eq-spec_calls_example =
    run_calls-eq-spec_calls one_key one_key-Laws key calls 0 none none (λ t' le. refl)
      (
        omega arith,
        (
          omega arith,
          (omega arith, (omega arith, (omega arith, (omega arith, (omega arith, tt))))),
        ),
      )
      answers

key_of_match : key ≡ codes "match:lock:" ++ (8 ∷ [])
unfolding lock_key
key_of_match = refl
