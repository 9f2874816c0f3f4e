-- ===== src/Hub/Received.antt =====
-- What the connection of one user of a match has received after a broadcast, and after a message to
-- one user.
use mathlib.Core.List.{append-nil}
use quiz.Prelude.{
  ℕ, ◌+◌, ◌≤◌, ◌≡◌, refl, ap, sym, ◌∙◌, true, Option, none, some, List, [], ◌∷◌, ◌++◌, arith, ◌==◌,
  nat_eq, nat_beq_iff, lookup, contains, Map, length, ltb, Bool-cases, inl, inr,
}
use quiz.Hub.{
  Hub, Connection, queue_capacity, conn_send, broadcast_to_match, match_users, send_to_user,
}
use quiz.Hub.Addresses.{lookup-AllOpen}
use quiz.Hub.Members.{is_member, match_users-Distinct}
use quiz.Hub.Delivery.{reaches, received, send_to_user_lem, broadcast_to_match_lem}
use quiz.Hub.History.{IsValid}

reaches_member :
    (us : List ℕ) (conns : Map ℕ ℕ) (v a : ℕ)
    → contains v us ≡ true
    → lookup v conns ≡ some a
    → reaches us conns a ≡ true
reaches_member [] conns v a h e = absurd (cc)
reaches_member (u ∷ us) conns v a h e = elim (Bool-cases (u == v)) [
  | inl same ↦
      let own : lookup u conns ≡ some a =
        ap (λ (x : ℕ). lookup x conns) ((nat_beq_iff u v).0 same) ∙ e in
      rw own (ground (arith, nat_beq_iff a a))
  | inr other ↦ ground (arith, reaches_member us conns v a (ground arith) e)
]

-- A broadcast is the last message in the queue of a user of the match, if that queue has a place.
pub broadcast-received :
    (m msg : ℕ) (h : Hub) (v a : ℕ)
    → IsValid h
    → is_member m v h ≡ true
    → lookup v h.connections ≡ some a
    → length (h.heap a).send_ch + 1 ≤ queue_capacity
    → (((broadcast_to_match m msg h).1.heap a).send_ch ≡ (h.heap a).send_ch ++ msg ∷ [])
      × ((broadcast_to_match m msg h).1.connections ≡ h.connections)
unfolding conn_send
broadcast-received m msg h v a valid within e room =
    let (same, at) =
      broadcast_to_match_lem m msg h a valid.hub (match_users-Distinct m h valid.users) in
    let reached = reaches_member (match_users m h) h.connections v a within e in
    let open_ = lookup-AllOpen h.heap v a h.connections valid.hub.opened e in
    (ground (arith, at, reached, open_), same)

-- Sending to a user takes nothing out of any queue.
received_more :
    (o : Option ℕ) (b msg : ℕ) (c : Connection)
    → (rest : List ℕ) × ((received o b msg c).send_ch ≡ c.send_ch ++ rest)
unfolding conn_send
received_more none b msg c = ([], sym (append-nil c.send_ch))
received_more (some a) b msg c = elim (Bool-cases (a == b)) [
  | inr other ↦ ([], rw other (sym (append-nil c.send_ch)))
  | inl own ↦ elim (Bool-cases c.closed) [
    | inl shut ↦ ([], rw (own, shut) (sym (append-nil c.send_ch)))
    | inr open_ ↦ elim (Bool-cases (ltb (length c.send_ch) queue_capacity)) [
      | inl less ↦ (msg ∷ [], rw (own, open_, less) refl)
      | inr full ↦ ([], rw (own, open_, full) (sym (append-nil c.send_ch)))
    ]
  ]
]

pub send_to_user-keeps :
    (u msg : ℕ) (h : Hub) (a : ℕ)
    → (rest : List ℕ) × (((send_to_user u msg h).1.heap a).send_ch ≡ (h.heap a).send_ch ++ rest)
send_to_user-keeps u msg h a =
    let (_, at) = send_to_user_lem u msg h in
    let (rest, e) = received_more (lookup u h.connections) a msg (h.heap a) in
    (rest, ap (λ (c : Connection). c.send_ch) (at a) ∙ e)
