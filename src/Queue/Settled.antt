-- ===== src/Queue/Settled.antt =====
-- The queue's invariant: no two entries wait that `Enqueue` could have paired.
use quiz.Prelude.{
  ℕ, ◌≡◌, refl, false, Option, none, some, List, [], ◌∷◌, arith, All, erase, insert, insert-All,
  erase-All, nat_eq, text_eq, beq_comm, ℤ,
}
use quiz.Queue.{
  WaitingPlayer, Waiting, Manager, MatchPair, MatchmakingRequest, is_compatible, normalize_category,
  to_player, enqueue, dequeue, new_manager,
}
use quiz.Queue.Search.{IsOrder, fits, enqueue_pairs, enqueue_waits}

fits_comm : (p q : WaitingPlayer) → fits p q ≡ fits q p
unfolding is_compatible
fits_comm p q = ground (
  arith,
  beq_comm (normalize_category p.preferred_category) (normalize_category q.preferred_category),
)

abbrev pub IsSettled : Waiting → Type 0
IsSettled [] = Unit {0}
IsSettled (e ∷ m) = All (λ f. fits e.1 f.1 ≡ false) m × IsSettled m

insert-IsSettled :
    (k : ℕ) (p : WaitingPlayer) (m : Waiting)
    → All (λ e. fits p e.1 ≡ false) m
    → IsSettled m
    → IsSettled (insert k p m)
insert-IsSettled k p [] apart h = (tt, tt)
insert-IsSettled k p ((j, w) ∷ m) apart h = ground (
  arith,
  insert-IsSettled k p m apart.1 h.1,
  insert-All (λ f. fits w f.1 ≡ false) k p m h.0,
  fits_comm p w,
)

erase-IsSettled : (k : ℕ) (m : Waiting) → IsSettled m → IsSettled (erase k m)
erase-IsSettled k [] h = tt
erase-IsSettled k ((j, w) ∷ m) h =
    ground (arith, erase-IsSettled k m h.1, erase-All (λ f. fits w f.1 ≡ false) k m h.0)

-- The events of a queue: a call of `Enqueue` or of `Dequeue`, with what the environment supplies.
pub data Call : Type 0 where
  enqueues : (Waiting → Waiting) → ℕ → ℕ → MatchmakingRequest → Call
  dequeues : ℕ → Call

pub run_call : Call → Manager → Manager
run_call (enqueues order token now req) m = (enqueue order token now req m).2
run_call (dequeues token) m = (dequeue token m).1

pub run_calls : List Call → Manager → Manager
run_calls [] m = m
run_calls (c ∷ cs) m = run_calls cs (run_call c m)

abbrev IsFair : Call → Type 0
IsFair (enqueues order token now req) = IsOrder order
IsFair (dequeues token) = Unit {0}

enqueue-IsSettled :
    (order : Waiting → Waiting) (token now : ℕ) (req : MatchmakingRequest) (m m' : Manager)
    (found : Option MatchPair)
    → IsOrder order
    → enqueue order token now req m ≡ (token, found, m')
    → IsSettled m.waiting
    → IsSettled m'.waiting
enqueue-IsSettled order token now req m m' none perm h s =
    let (apart, grown) = enqueue_waits order token now req m m' perm h in
    rw grown (insert-IsSettled token (to_player req token now) m.waiting apart s)
enqueue-IsSettled order token now req m m' (some pair) perm h s =
    let (t, _, _, _, _, left) = enqueue_pairs order token now req m m' pair perm h in
    rw left (erase-IsSettled t m.waiting s)

pub dequeue-IsSettled :
    (token : ℕ) (m : Manager) → IsSettled m.waiting → IsSettled (dequeue token m).1.waiting
unfolding dequeue
dequeue-IsSettled token m s = ground (arith, erase-IsSettled token m.waiting s)

pub enqueue_step-IsSettled :
    (order : Waiting → Waiting) (token now : ℕ) (req : MatchmakingRequest) (m : Manager)
    → IsOrder order
    → IsSettled m.waiting
    → IsSettled (enqueue order token now req m).2.waiting
enqueue_step-IsSettled order token now req m perm s =
    enqueue-IsSettled order token now req m (enqueue order token now req m).2
      (enqueue order token now req m).1 perm (unfold enqueue in refl) s

run_call-IsSettled :
    (c : Call) (m : Manager) → IsFair c → IsSettled m.waiting → IsSettled (run_call c m).waiting
unfolding run_call
run_call-IsSettled (enqueues order token now req) m f s =
    enqueue_step-IsSettled order token now req m f s
run_call-IsSettled (dequeues token) m f s = dequeue-IsSettled token m s

-- After any history of `Enqueue` and `Dequeue` calls on a new manager, whatever the order in which
-- each search visits the map, no two entries of different users wait with the same category.
run_calls-IsSettled :
    (cs : List Call) (wait : ℤ)
    → All IsFair cs
    → IsSettled (run_calls cs (new_manager wait)).waiting
unfolding new_manager run_calls
run_calls-IsSettled cs wait f = go cs _ f tt
  where
    go :
        (ds : List Call) (m : Manager)
        → All IsFair ds
        → IsSettled m.waiting
        → IsSettled (run_calls ds m).waiting
    go [] m g s = s
    go (d ∷ ds) m g s = go ds (run_call d m) g.1 (run_call-IsSettled d m g.0 s)
