-- ===== src/Hub/History.antt =====
-- The events of a hub as a step relation, and what holds after any of them.
use mathlib.Core.List.{Perm}
use quiz.Prelude.{ℕ, ◌≡◌, List, [], ◌∷◌, arith, nat_eq, lookup, Option-cases, inl, inr}
use quiz.Hub.{
  Hub, new_hub, new_connection, register_connection, unregister_connection, join_match, leave_match,
  send_to_user, send_at, broadcast, broadcast_to_match, broadcast_all, match_users, conn_next,
  write,
}
use quiz.Hub.Members.{
  HasDistinctUsers, join_match_lem, leave_match_lem, unregister_connection_matches,
}
use quiz.Hub.Connections.{
  IsHub, IsFresh, register_connection-IsHub, unregister_connection-IsHub, send_at-IsHub,
  conn_next-IsHub,
}

-- The write pump of the connection at `a` takes its next message.
pub pump : ℕ → Hub → Hub
unfolding conn_next
pump a h = record h { heap = write h.heap a (conn_next (h.heap a)).1 }

-- One event: the environment chooses which, `NewConnection` returns a connection that is new, and
-- `BroadcastAll` visits the connections in any order. The sends of an interrupted `BroadcastToMatch`
-- are events of their own.
pub data Step (h : Hub) : Hub → Type 0 where
  registers : (user_id conn : ℕ) → IsFresh conn h → Step h (register_connection user_id conn h)
  unregisters : (user_id : ℕ) → Step h (unregister_connection user_id h)
  joins : (match_id user_id : ℕ) → Step h (join_match match_id user_id h)
  leaves : (match_id user_id : ℕ) → Step h (leave_match match_id user_id h)
  sends : (user_id msg : ℕ) → Step h (send_to_user user_id msg h).1
  broadcasts : (match_id msg : ℕ) → Step h (broadcast_to_match match_id msg h).1
  broadcasts_all :
      (conns : List (ℕ × ℕ)) (msg : ℕ)
      → Perm conns h.connections
      → Step h (broadcast_all conns msg h).1
  pumps : (a : ℕ) → Step h (pump a h)

pub data Reach (h : Hub) : Hub → Type 0 where
  here : Reach h h
  next : {g k : Hub} → Reach h g → Step g k → Reach h k

pub record IsValid (h : Hub) : Type 0 where
  pub hub : IsHub h
  pub users : HasDistinctUsers h.matches

pub new_hub-IsValid : IsValid new_hub
unfolding new_hub new_connection
new_hub-IsValid = record {
  hub = record { opened = tt; separate = tt; bounded = λ a. omega arith };
  users = tt;
}

pub send_to_user-IsValid : (u msg : ℕ) (h : Hub) → IsValid h → IsValid (send_to_user u msg h).1
unfolding send_to_user
send_to_user-IsValid u msg h v = elim (Option-cases (lookup u h.connections)) [
  | inl e ↦ rw (e, send_to_user) v
  | inr (a, e) ↦
      rw (e, send_to_user)
        (record { hub = send_at-IsHub a msg h v.hub; users = unfold send_at in v.users })
]

broadcast-IsValid : (us : List ℕ) (msg : ℕ) (h : Hub) → IsValid h → IsValid (broadcast us msg h).1
unfolding broadcast
broadcast-IsValid [] msg h v = v
broadcast-IsValid (u ∷ us) msg h v =
    broadcast-IsValid us msg (send_to_user u msg h).1 (send_to_user-IsValid u msg h v)

broadcast_all-IsValid :
    (conns : List (ℕ × ℕ)) (msg : ℕ) (h : Hub) → IsValid h → IsValid (broadcast_all conns msg h).1
unfolding broadcast_all
broadcast_all-IsValid [] msg h v = v
broadcast_all-IsValid ((u, a) ∷ conns) msg h v =
    broadcast_all-IsValid conns msg (send_at a msg h).1
      (record { hub = send_at-IsHub a msg h v.hub; users = unfold send_at in v.users })

register_connection-matches :
    (u conn : ℕ) (h : Hub) → (register_connection u conn h).matches ≡ h.matches
unfolding register_connection
register_connection-matches u conn h = ground arith

pub join_match-hub :
    (m u : ℕ) (h : Hub)
    → ((join_match m u h).connections ≡ h.connections) × ((join_match m u h).heap ≡ h.heap)
unfolding join_match
join_match-hub m u h = ground arith

leave_match-hub :
    (m u : ℕ) (h : Hub)
    → ((leave_match m u h).connections ≡ h.connections) × ((leave_match m u h).heap ≡ h.heap)
unfolding leave_match
leave_match-hub m u h = ground arith

same-IsHub : (g h : Hub) → g.connections ≡ h.connections → g.heap ≡ h.heap → IsHub h → IsHub g
same-IsHub g h c e v = record {
  opened = rw (c, e) v.opened;
  separate = rw c v.separate;
  bounded = λ a. rw e (v.bounded a);
}

pub Step-IsValid : {h g : Hub} → Step h g → IsValid h → IsValid g
unfolding broadcast_to_match pump
Step-IsValid {h} (registers u conn fresh) v = record {
  hub = register_connection-IsHub u conn h fresh v.hub;
  users = rw (register_connection-matches u conn h) v.users;
}
Step-IsValid {h} (unregisters u) v = record {
  hub = unregister_connection-IsHub u h v.hub;
  users = (unregister_connection_matches u h v.users).0;
}
Step-IsValid {h} (joins m u) v = record {
  hub = same-IsHub (join_match m u h) h (join_match-hub m u h).0 (join_match-hub m u h).1 v.hub;
  users = (join_match_lem m u h v.users).0;
}
Step-IsValid {h} (leaves m u) v = record {
  hub = same-IsHub (leave_match m u h) h (leave_match-hub m u h).0 (leave_match-hub m u h).1 v.hub;
  users = (leave_match_lem m u h v.users).0;
}
Step-IsValid {h} (sends u msg) v = send_to_user-IsValid u msg h v
Step-IsValid {h} (broadcasts m msg) v = broadcast-IsValid (match_users m h) msg h v
Step-IsValid {h} (broadcasts_all conns msg order) v = broadcast_all-IsValid conns msg h v
Step-IsValid {h} (pumps a) v = record { hub = conn_next-IsHub a h v.hub; users = v.users }

-- After any sequence of events on a new hub, broadcasts to all among them, no registered connection is closed, no two users share
-- a connection, no send queue holds more than 256 messages, and no match lists a user twice.
pub Reach-IsValid : {h : Hub} → Reach new_hub h → IsValid h
Reach-IsValid here = new_hub-IsValid
Reach-IsValid (next r s) = Step-IsValid s (Reach-IsValid r)
