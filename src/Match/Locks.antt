-- ===== src/Match/Locks.antt =====
-- `LockMatch` of internal/match/state.go and the unlock function that it returns, over the commands
-- of Redis that they use. `get` is at a time, since keys expire; a value is the text of the fresh
-- UUID of one holder. The unlock script runs atomically in Redis, as one step here.
pub mod Refinement
mod Tests
use quiz.Prelude.{
  ℕ, ◌+◌, ◌*◌, ◌≤◌, ◌≡◌, Bool, true, false, ◌&&◌, Option, none, some, List, [], ◌∷◌, ◌++◌,
  if◌then◌else◌, ◌==◌, text_eq, ltb, leb, Text, codes,
}
use quiz.Match.{LockReply, acquired, held, failed, second}

-- `set_nx` at a time, with key, value and the time to live; `none` is an error.
pub record Redis (S : Type 0) : Type 0 where
  pub set_nx : S → ℕ → Text → Text → ℕ → Option Bool × S
  pub get : S → ℕ → Text → Option Text
  pub del : S → ℕ → Text → S

-- What is shown of a value with a deadline.
abbrev pub until : Text → ℕ → ℕ → Option Text
until v deadline t = if ltb t deadline then some v else none

-- What an answered SET NX has done, for what GET showed before.
abbrev pub NxDone : {S : Type 0} → Redis S → S → ℕ → Text → Text → ℕ → Option Text → Bool → Type 0
NxDone r s t key v ttl none b =
    (b ≡ true)
    × ((t' : ℕ) → t ≤ t' → r.get (r.set_nx s t key v ttl).1 t' key ≡ until v (t + ttl) t')
NxDone r s t key v ttl (some w) b = (b ≡ false) × ((r.set_nx s t key v ttl).1 ≡ s)

pub record Laws {S : Type 0} (r : Redis S) : Type 0 where
  pub set_nx_done :
      (s : S) (t : ℕ) (key v : Text) (ttl : ℕ) (b : Bool)
      → (r.set_nx s t key v ttl).0 ≡ some b
      → NxDone r s t key v ttl (r.get s t key) b
  pub del_done :
      (s : S) (t : ℕ) (key : Text) (t' : ℕ) → t ≤ t' → r.get (r.del s t key) t' key ≡ none

abbrev pub lock_ttl : ℕ
lock_ttl = 30 * second

pub lock_key : (ℕ → Text) → ℕ → Text
lock_key uuid_text match_id = codes "match:lock:" ++ uuid_text match_id

abbrev pub reply_of : Option Bool → LockReply
reply_of none = failed
reply_of (some true) = acquired
reply_of (some false) = held

abbrev pub is_value : Option Text → Text → Bool
is_value none v = false
is_value (some w) v = w == v

module _ {S : Type 0} (r : Redis S) (key : Text) where
  pub lock_match : ℕ → Text → S → LockReply × S
  lock_match t v s = let (answer, s') = r.set_nx s t key v lock_ttl in (reply_of answer, s')

  pub unlock : ℕ → Text → S → S
  unlock t v s = if is_value (r.get s t key) v then r.del s t key else s

-- A call of `LockMatch` or of an unlock function, with its time and the value of the holder.
pub data Call : Type 0 where
  locks unlocks : ℕ → Text → Call

abbrev pub time_of : Call → ℕ
time_of (locks t v) = t
time_of (unlocks t v) = t

-- The replies of the calls of `LockMatch`, in order.
pub run_calls : {S : Type 0} → Redis S → Text → List Call → S → List LockReply
unfolding lock_match unlock
run_calls r key [] s = []
run_calls r key (locks t v ∷ calls) s =
    (lock_match r key t v s).0 ∷ run_calls r key calls (lock_match r key t v s).1
run_calls r key (unlocks t v ∷ calls) s = run_calls r key calls (unlock r key t v s)

-- The lock that is meant: held by nobody, or by a value up to a deadline.
abbrev pub Held : Type 0
Held = Option (Text × ℕ)

abbrev pub shown : Held → ℕ → Option Text
shown none t = none
shown (some (v, deadline)) t = until v deadline t

-- A lock is free if nobody holds it or the deadline has passed.
pub spec_lock : ℕ → Text → Held → LockReply × Held
spec_lock t v none = (acquired, some (v, t + lock_ttl))
spec_lock t v (some (w, deadline)) =
    if ltb t deadline then (held, some (w, deadline)) else (acquired, some (v, t + lock_ttl))

-- Only its holder frees a lock.
pub spec_unlock : ℕ → Text → Held → Held
spec_unlock t v none = none
spec_unlock t v (some (w, deadline)) = if ltb t deadline && w == v then none else some (w, deadline)

pub spec_calls : List Call → Held → List LockReply
unfolding spec_lock spec_unlock
spec_calls [] h = []
spec_calls (locks t v ∷ calls) h = (spec_lock t v h).0 ∷ spec_calls calls (spec_lock t v h).1
spec_calls (unlocks t v ∷ calls) h = spec_calls calls (spec_unlock t v h)
