-- ===== src/Queue/Search.antt =====
-- Which waiting player `Enqueue` picks, whatever the order of visiting.
use mathlib.Core.List.{Mem, Perm, mem-cons_self, mem-cons_of_mem}
use mathlib.Core.List.Perm
use quiz.Prelude.{
  ℕ, ◌≡◌, ◌≢◌, refl, sym, ap, subst, Bool, true, false, not, ◌&&◌, Option, none, some, [], ◌∷◌,
  arith, ◌==◌, All, All-perm, erase, insert, inl, inr, Bool-cases, nat_eq, text_eq, text_beq_iff,
}
use quiz.Queue.{
  WaitingPlayer, Waiting, Manager, MatchPair, MatchmakingRequest, is_compatible, find_match,
  normalize_category, to_player, settle, enqueue,
}

-- What Go promises of `range` over a map: each entry is visited once, in some order.
abbrev pub IsOrder : (Waiting → Waiting) → Type 0
IsOrder order = (m : Waiting) → Perm (order m) m

-- Two different users with one category.
abbrev pub fits : WaitingPlayer → WaitingPlayer → Bool
fits p other = not (other.user_id == p.user_id) && is_compatible p other

-- The entry under `t` is one that the search may pick.
abbrev Found : WaitingPlayer → Waiting → ℕ → WaitingPlayer → Type 0
Found player m t other = Mem (t, other) m × (fits player other ≡ true)

Found-cons :
    (e : ℕ × WaitingPlayer) (player : WaitingPlayer) (m : Waiting) (t : ℕ) (other : WaitingPlayer)
    → Found player m t other
    → Found player (e ∷ m) t other
Found-cons e player m t other f = (mem-cons_of_mem e f.0, f.1)

find_match-Found :
    (player : WaitingPlayer) (m : Waiting) (t : ℕ) (other : WaitingPlayer)
    → find_match player m ≡ some (t, other)
    → Found player m t other
unfolding find_match
find_match-Found player [] t other h = absurd (cc)
find_match-Found player ((s, p) ∷ m) t other h = elim (Bool-cases (fits player p)) [
  | inl yes_fits ↦
      let here : ◌≡◌ {A = ℕ × WaitingPlayer} (t, other) (s, p) = ground arith in
      subst (λ e. Mem e ((s, p) ∷ m) × (fits player e.1 ≡ true)) (sym here)
        (mem-cons_self, yes_fits)
  | inr unfit ↦
      Found-cons (s, p) player m t other (find_match-Found player m t other (ground arith))
]

find_match-none :
    (player : WaitingPlayer) (m : Waiting)
    → find_match player m ≡ none
    → All (λ e. fits player e.1 ≡ false) m
unfolding find_match
find_match-none player [] h = tt
find_match-none player ((s, p) ∷ m) h = ground (arith, find_match-none player m)

is_compatible_iff :
    (p other : WaitingPlayer)
    → is_compatible p other ≡ true
    → normalize_category p.preferred_category ≡ normalize_category other.preferred_category
unfolding is_compatible
is_compatible_iff p other h = ground (
  arith,
  text_beq_iff (normalize_category p.preferred_category)
      (normalize_category other.preferred_category),
)

settle-some :
    (player : WaitingPlayer) (m : Manager) (r : Option (ℕ × WaitingPlayer)) (pair : MatchPair)
    (m' : Manager)
    → (settle player m r).0 ≡ some pair
    → (settle player m r).1 ≡ m'
    → (t : ℕ) × (other : WaitingPlayer) × (r ≡ some (t, other))
      × (pair ≡ record { player1 = player; player2 = other })
      × (m' ≡ record m { waiting = erase t m.waiting })
unfolding settle
settle-some player m none pair m' h k = absurd (cc)
settle-some player m (some (t, other)) pair m' h k = (t, other, refl, ground arith, sym k)

settle-none :
    (player : WaitingPlayer) (m : Manager) (r : Option (ℕ × WaitingPlayer)) (m' : Manager)
    → (settle player m r).0 ≡ none
    → (settle player m r).1 ≡ m'
    → (r ≡ none) × (m' ≡ record m { waiting = insert player.queue_token player m.waiting })
unfolding settle
settle-none player m none m' h k = (refl, sym k)
settle-none player m (some (t, other)) m' h k = absurd (cc)

-- If `Enqueue` returns a pair, its first player is the caller with the fresh token, its second
-- stood in the queue, is another user and has the same category after normalisation; exactly the
-- entry of the second is deleted and the caller is not queued.
pub enqueue_pairs :
    (order : Waiting → Waiting) (token now : ℕ) (req : MatchmakingRequest) (m m' : Manager)
    (pair : MatchPair)
    → IsOrder order
    → enqueue order token now req m ≡ (token, some pair, m')
    → (t : ℕ) × (pair.player1 ≡ to_player req token now)
      × Mem (t, pair.player2) m.waiting
      × (pair.player2.user_id ≢ req.user_id)
      × (normalize_category req.preferred_category
          ≡ normalize_category pair.player2.preferred_category)
      × (m' ≡ record m { waiting = erase t m.waiting })
unfolding enqueue
enqueue_pairs order token now req m m' pair perm h =
    let player = to_player req token now in
    let (t, other, hit, paired, left) =
      settle-some player m (find_match player (order m.waiting)) pair m' (ground arith)
        (ground arith) in
    let found = find_match-Found player (order m.waiting) t other hit in
    let second = ap (λ (q : MatchPair). q.player2) paired in
    (
      t,
      ap (λ (q : MatchPair). q.player1) paired,
      rw second ((Perm.mem_iff (perm m.waiting)).0 found.0),
      rw second (ground arith),
      rw second (is_compatible_iff player other (ground arith)),
      left,
    )

-- If `Enqueue` returns no pair, no waiting player of another user has the caller's category, and
-- the queue has grown by the caller under the fresh token.
pub enqueue_waits :
    (order : Waiting → Waiting) (token now : ℕ) (req : MatchmakingRequest) (m m' : Manager)
    → IsOrder order
    → enqueue order token now req m ≡ (token, none, m')
    → All (λ e. fits (to_player req token now) e.1 ≡ false) m.waiting
      × (m' ≡ record m { waiting = insert token (to_player req token now) m.waiting })
unfolding enqueue
enqueue_waits order token now req m m' perm h =
    let player = to_player req token now in
    let (missed, grown) =
      settle-none player m (find_match player (order m.waiting)) m' (ground arith) (ground arith) in
    (
      All-perm (λ e. fits player e.1 ≡ false) (λ e. hlevel) (perm m.waiting)
          (find_match-none player (order m.waiting) missed),
      grown,
    )
