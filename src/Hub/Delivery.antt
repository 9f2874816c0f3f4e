-- ===== src/Hub/Delivery.antt =====
-- What a message sent to a user or to a match does to the queues of the connections.
use quiz.Prelude.{
  ℕ, ◌≡◌, ◌≢◌, ◌⊎◌, refl, ap, ◌∙◌, Bool, true, false, ◌||◌, Option, none, some, List, [], ◌∷◌, ◌++◌,
  arith, ◌==◌, nat_eq, All, Map, lookup, lookup-insert_self, lookup-erase, contains, Distinct,
  Option-cases, Bool-cases, inl, inr, if◌then◌else◌, length, ltb, ok, err, nat_beq_iff,
}
use quiz.Hub.{
  Hub, Connection, connection_not_found, send_queue_full, queue_capacity, conn_send, conn_close,
  register_connection, unregister_connection, drop_connection, send_at, send_to_user, broadcast,
  broadcast_to_match, match_users, get_connection,
}
use quiz.Hub.Addresses.{addresses, lookup-contains, lookup-AllOpen}
use quiz.Hub.Connections.{IsHub}

-- The connection at `b` after a message was sent to a user whose connection is `target`.
abbrev pub received : Option ℕ → ℕ → ℕ → Connection → Connection
received none b msg c = c
received (some a) b msg c = if a == b then (conn_send c msg).1 else c

pub send_to_user_lem :
    (u msg : ℕ) (h : Hub)
    → ((send_to_user u msg h).1.connections ≡ h.connections)
      × ((b : ℕ)
          → (send_to_user u msg h).1.heap b ≡ received (lookup u h.connections) b msg (h.heap b))
unfolding send_to_user send_at
send_to_user_lem u msg h = elim (Option-cases (lookup u h.connections)) [
  | inl e ↦ (ground arith, λ b. ground arith)
  | inr (a, e) ↦ (ground arith, λ b. ground (arith, nat_beq_iff a b))
]

lookup_injective :
    (u v a : ℕ) (m : Map ℕ ℕ)
    → Distinct (addresses m)
    → lookup u m ≡ some a
    → lookup v m ≡ some a
    → u ≡ v
lookup_injective u v a [] d h k = absurd (cc)
lookup_injective u v a ((j, w) ∷ m) d h k =
    ground (arith, lookup_injective u v a m d.1, lookup-contains u a m, lookup-contains v a m)

broadcast-connections :
    (us : List ℕ) (msg : ℕ) (h : Hub) → (broadcast us msg h).1.connections ≡ h.connections
unfolding broadcast
broadcast-connections [] msg h = refl
broadcast-connections (u ∷ us) msg h =
    broadcast-connections us msg (send_to_user u msg h).1 ∙ (send_to_user_lem u msg h).0

received_other : (o : Option ℕ) (b msg : ℕ) (c : Connection) → o ≢ some b → received o b msg c ≡ c
received_other none b msg c ne = refl
received_other (some a) b msg c ne = ground (arith, nat_beq_iff a b, ap {B = Option ℕ} some)

received_own :
    (o : Option ℕ) (b msg : ℕ) (c : Connection)
    → o ≡ some b
    → received o b msg c ≡ (conn_send c msg).1
received_own none b msg c e = absurd (cc)
received_own (some a) b msg c e = ground (arith, nat_beq_iff a b)

broadcast-others :
    (us : List ℕ) (msg : ℕ) (conns : Map ℕ ℕ) (h : Hub) (b : ℕ)
    → h.connections ≡ conns
    → All (λ u. lookup u conns ≢ some b) us
    → (broadcast us msg h).1.heap b ≡ h.heap b
unfolding broadcast
broadcast-others [] msg conns h b e none_has = refl
broadcast-others (u ∷ us) msg conns h b e none_has =
    let (same, at) = send_to_user_lem u msg h in
    broadcast-others us msg conns (send_to_user u msg h).1 b (same ∙ e) none_has.1
    ∙ (at b ∙ received_other (lookup u h.connections) b msg (h.heap b) (rw e none_has.0))

others_have_none :
    (v b : ℕ) (us : List ℕ) (conns : Map ℕ ℕ)
    → Distinct (addresses conns)
    → lookup v conns ≡ some b
    → contains v us ≡ false
    → All (λ u. lookup u conns ≢ some b) us
others_have_none v b [] conns d h c = tt
others_have_none v b (u ∷ us) conns d h c = (
  λ k. ground (arith, lookup_injective u v b conns d k h),
  others_have_none v b us conns d h (ground arith),
)

broadcast-member :
    (us : List ℕ) (msg : ℕ) (conns : Map ℕ ℕ) (h : Hub) (v b : ℕ)
    → h.connections ≡ conns
    → Distinct (addresses conns)
    → Distinct us
    → contains v us ≡ true
    → lookup v conns ≡ some b
    → (broadcast us msg h).1.heap b ≡ (conn_send (h.heap b) msg).1
unfolding broadcast
broadcast-member [] msg conns h v b e d ds c k = absurd (cc)
broadcast-member (u ∷ us) msg conns h v b e d ds c k =
    let (same, at) = send_to_user_lem u msg h in
    let h1 = (send_to_user u msg h).1 in
    elim (Bool-cases (u == v)) [
      | inl here ↦
          let own : u ≡ v = ground arith in
          broadcast-others us msg conns h1 b (same ∙ e)
            (others_have_none v b us conns d k (ground arith))
          ∙ (at b ∙ received_own (lookup u h.connections) b msg (h.heap b) (rw (e, own) k))
      | inr later ↦
          broadcast-member us msg conns h1 v b (same ∙ e) d ds.1 (ground arith) k
          ∙ ap (λ c'. (conn_send c' msg).1)
              (at b
                ∙ received_other (lookup u h.connections) b msg (h.heap b)
                    (λ q. ground (arith, lookup_injective u v b conns d (rw (← e) q) k)))
    ]

-- Whether one of the users has the connection at `b`.
abbrev has_address : Option ℕ → ℕ → Bool
has_address none b = false
has_address (some a) b = a == b

abbrev pub reaches : List ℕ → Map ℕ ℕ → ℕ → Bool
reaches [] conns b = false
reaches (u ∷ us) conns b = has_address (lookup u conns) b || reaches us conns b

has_address_iff : (o : Option ℕ) (b : ℕ) → has_address o b ≡ true → o ≡ some b
has_address_iff none b h = absurd (cc)
has_address_iff (some a) b h = ap {B = Option ℕ} some ((nat_beq_iff a b).0 h)

has_address_none : (o : Option ℕ) (b : ℕ) → has_address o b ≡ false → o ≢ some b
has_address_none none b h e = cc
has_address_none (some a) b h e = ground (arith, nat_beq_iff a b)

reaches-some :
    (us : List ℕ) (conns : Map ℕ ℕ) (b : ℕ)
    → reaches us conns b ≡ true
    → (v : ℕ) × (contains v us ≡ true) × (lookup v conns ≡ some b)
reaches-some [] conns b h = absurd (cc)
reaches-some (u ∷ us) conns b h = elim (Bool-cases (has_address (lookup u conns) b)) [
  | inl own ↦ (u, ground (arith, nat_beq_iff u u), has_address_iff (lookup u conns) b own)
  | inr other ↦
      let (v, within, at) = reaches-some us conns b (ground arith) in (v, ground arith, at)
]

reaches-none :
    (us : List ℕ) (conns : Map ℕ ℕ) (b : ℕ)
    → reaches us conns b ≡ false
    → All (λ u. lookup u conns ≢ some b) us
reaches-none [] conns b h = tt
reaches-none (u ∷ us) conns b h =
    (has_address_none (lookup u conns) b (ground arith), reaches-none us conns b (ground arith))

-- While the invariant holds and the match lists no user twice, a `BroadcastToMatch` that no other
-- call of the hub interrupts offers the message exactly once, with `Send`, to each connection that a
-- user of the match has, and leaves every other connection and the registry as they are.
pub broadcast_to_match_lem :
    (match_id msg : ℕ) (h : Hub) (b : ℕ)
    → IsHub h
    → Distinct (match_users match_id h)
    → let after = (broadcast_to_match match_id msg h).1 in
      (after.connections ≡ h.connections)
      × (after.heap b ≡ (
          if reaches (match_users match_id h) h.connections b
          then (conn_send (h.heap b) msg).1
          else h.heap b))
unfolding broadcast_to_match
broadcast_to_match_lem match_id msg h b v d =
    let us = match_users match_id h in
    (
      broadcast-connections us msg h,
      elim (Bool-cases (reaches us h.connections b)) [
        | inl own ↦
            let (u, within, at) = reaches-some us h.connections b own in
            rw own (broadcast-member us msg h.connections h u b refl v.separate d within at)
        | inr other ↦
            rw other (
              broadcast-others us msg h.connections h b refl
                (reaches-none us h.connections b other))
      ],
    )

-- While the invariant holds, `SendToUser` fails only for a user without connection or with a full
-- queue, never because the connection is closed; otherwise the message is the last in the queue of
-- the user's connection.
send_to_user_cases :
    (u msg : ℕ) (h : Hub)
    → IsHub h
    → ((lookup u h.connections ≡ none) × (send_to_user u msg h ≡ (err connection_not_found, h)))
      ⊎ ((a : ℕ) × (lookup u h.connections ≡ some a)
          × (length (h.heap a).send_ch ≡ queue_capacity)
          × ((send_to_user u msg h).0 ≡ err send_queue_full))
      ⊎ ((a : ℕ) × (lookup u h.connections ≡ some a)
          × ((send_to_user u msg h).0 ≡ ok tt)
          × (((send_to_user u msg h).1.heap a).send_ch ≡ (h.heap a).send_ch ++ msg ∷ []))
unfolding send_to_user send_at conn_send
send_to_user_cases u msg h v = elim (Option-cases (lookup u h.connections)) [
  | inl e ↦ inl (e, ground arith)
  | inr (a, e) ↦
      let open_ = lookup-AllOpen h.heap u a h.connections v.opened e in
      let room = v.bounded a in
      elim (Bool-cases (ltb (length (h.heap a).send_ch) queue_capacity)) [
        | inl less ↦ inr (inr (a, e, ground arith, ground (arith, nat_beq_iff a a)))
        | inr full ↦ inr (inl (a, e, ground arith, ground arith))
      ]
]

register_connection-lookup :
    (u conn : ℕ) (h : Hub) → lookup u (register_connection u conn h).connections ≡ some conn
unfolding register_connection
register_connection-lookup u conn h = elim (Option-cases (lookup u h.connections)) [
  | inl e ↦ ground (arith, lookup-insert_self u conn h.connections)
  | inr (old, e) ↦ ground (arith, lookup-insert_self u conn h.connections)
]

unregister_connection-drops :
    (u conn : ℕ) (h : Hub)
    → lookup u h.connections ≡ some conn
    → (lookup u (unregister_connection u h).connections ≡ none)
      × (((unregister_connection u h).heap conn).closed ≡ true)
unfolding unregister_connection drop_connection conn_close
unregister_connection-drops u conn h e = (
  ground (arith, lookup-erase u u h.connections, nat_beq_iff u u),
  ground (arith, nat_beq_iff conn conn),
)

-- When a user has registered one connection and then another, the second is the registered one, and
-- `UnregisterConnection` for the user, which the handler of the first calls at its end, deletes the
-- second and closes it.
pub reconnect_drops :
    (user_id first again : ℕ) (h : Hub)
    → let h' = register_connection user_id again (register_connection user_id first h) in
      (get_connection user_id h' ≡ some again)
      × (get_connection user_id (unregister_connection user_id h') ≡ none)
      × (((unregister_connection user_id h').heap again).closed ≡ true)
unfolding get_connection
reconnect_drops user_id first again h =
    let h' = register_connection user_id again (register_connection user_id first h) in
    let there = register_connection-lookup user_id again (register_connection user_id first h) in
    let (gone, closed) = unregister_connection-drops user_id again h' there in (there, gone, closed)
