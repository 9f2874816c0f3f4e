-- ===== src/Hub.antt =====
-- pkg/http/ws/hub.go: the registry of WebSocket connections. A `*Connection` is an address into
-- `heap`, since the hub, the write pump and the read pump share it. A message is its number; the
-- socket (`websocket.Conn`) is left out but for whether it was closed. Each method of `Hub` and
-- of `Connection` is one step, though `SendToUser` and `BroadcastToMatch` hold the mutex only while
-- they read the maps: `broadcast_to_match` is a run that no other call interrupts. Interrupted, it is
-- the sends of its loop one by one, to the users that the loop then reads.
pub mod Members
pub mod Addresses
pub mod Connections
pub mod Delivery
pub mod History
pub mod Received
pub mod Rosters
mod Tests
use quiz.Prelude.{
  ℕ, suc, ◌+◌, Bool, true, false, Option, none, some, List, [], ◌∷◌, ◌++◌, map, ltb, if◌then◌else◌,
  ◌==◌, nat_eq, Map, lookup, insert, erase, Result, ok, err, contains, length,
}

pub record Connection : Type 0 where
  pub send_ch : List ℕ
  pub closed : Bool

pub record Hub : Type 0 where
  pub connections : Map ℕ ℕ
  pub matches : Map ℕ (List ℕ)
  pub heap : ℕ → Connection

pub data HubError : Type 0 where
  connection_not_found connection_closed send_queue_full : HubError

-- The capacity of `sendCh`.
abbrev pub queue_capacity : ℕ
queue_capacity = 256

unfoldable pub new_connection : Connection
new_connection = record { send_ch = []; closed = false }

unfoldable pub new_hub : Hub
new_hub = record { connections = []; matches = []; heap = λ a. new_connection }

-- `Connection.Send`: a full channel refuses at once.
pub conn_send : Connection → ℕ → Result HubError (Unit {0}) × Connection
conn_send c msg =
    if c.closed
    then (err connection_closed, c)
    else if ltb (length c.send_ch) queue_capacity
    then (ok tt, record c { send_ch = c.send_ch ++ msg ∷ [] })
    else (err send_queue_full, c)

-- `Connection.Close`
pub conn_close : Connection → Connection
conn_close c = if c.closed then c else record c { closed = true }

-- What `WritePump` takes next: a queued message, or the end once the channel is closed and empty.
pub conn_next : Connection → Option ℕ × Connection
conn_next c = elim c.send_ch [
  | [] ↦ (none, c)
  | msg ∷ rest ↦ (some msg, record c { send_ch = rest })
]

abbrev pub write : (ℕ → Connection) → ℕ → Connection → ℕ → Connection
write heap a c b = if a == b then c else heap b

unfoldable pub register_connection : ℕ → ℕ → Hub → Hub
unfolding conn_close
register_connection user_id conn h = elim (lookup user_id h.connections) [
  | none ↦ record h { connections = insert user_id conn h.connections }
  | some old ↦ record h {
    heap = write h.heap old (conn_close (h.heap old));
    connections = insert user_id conn h.connections;
  }
]

-- The inner loop of `UnregisterConnection` and `LeaveMatch`: the first occurrence is cut out.
pub remove_first : ℕ → List ℕ → List ℕ
remove_first user_id [] = []
remove_first user_id (uid ∷ users) =
    let rest = remove_first user_id users in if uid == user_id then users else uid ∷ rest

pub remove_from_all : ℕ → Map ℕ (List ℕ) → Map ℕ (List ℕ)
unfolding remove_first
remove_from_all user_id [] = []
remove_from_all user_id ((match_id, users) ∷ m) =
    (match_id, remove_first user_id users) ∷ remove_from_all user_id m

pub drop_connection : ℕ → Hub → Hub
unfolding conn_close
drop_connection user_id h = elim (lookup user_id h.connections) [
  | none ↦ h
  | some conn ↦ record h {
    heap = write h.heap conn (conn_close (h.heap conn));
    connections = erase user_id h.connections;
  }
]

pub unregister_connection : ℕ → Hub → Hub
unfolding drop_connection remove_from_all
unregister_connection user_id h = record (drop_connection user_id h) {
  matches = remove_from_all user_id h.matches;
}

-- `h.matches[id]`: a missing match has no users.
pub match_users : ℕ → Hub → List ℕ
match_users match_id h = elim (lookup match_id h.matches) [ none ↦ [] | some users ↦ users ]

pub join_match : ℕ → ℕ → Hub → Hub
unfolding match_users
join_match match_id user_id h =
    if contains user_id (match_users match_id h)
    then h
    else record h { matches = insert match_id (match_users match_id h ++ user_id ∷ []) h.matches }

pub leave_match : ℕ → ℕ → Hub → Hub
unfolding match_users remove_first
leave_match match_id user_id h =
    if contains user_id (match_users match_id h)
    then record h {
      matches = insert match_id (remove_first user_id (match_users match_id h)) h.matches;
    }
    else h

-- `Send` on the connection at an address.
pub send_at : ℕ → ℕ → Hub → Result HubError (Unit {0}) × Hub
unfolding conn_send
send_at a msg h = let (r, c) = conn_send (h.heap a) msg in (r, record h { heap = write h.heap a c })

pub send_to_user : ℕ → ℕ → Hub → Result HubError (Unit {0}) × Hub
unfolding send_at
send_to_user user_id msg h = elim (lookup user_id h.connections) [
  | none ↦ (err connection_not_found, h)
  | some conn ↦ send_at conn msg h
]

-- The loop of `BroadcastToMatch` over the users that it reads: the errors in order, and the hub.
pub broadcast : List ℕ → ℕ → Hub → List HubError × Hub
unfolding send_to_user
broadcast [] msg h = ([], h)
broadcast (user_id ∷ users) msg h =
    let (r, h') = send_to_user user_id msg h in
    let (errors, h'') = broadcast users msg h' in
    (elim r [ ok _ ↦ errors | err e ↦ e ∷ errors ], h'')

abbrev first_error : List HubError → Result HubError (Unit {0})
first_error [] = ok tt
first_error (e ∷ errors) = err e

-- `BroadcastToMatch`, while no other call changes the users of the match, whose array the loop
-- shares with `LeaveMatch` and `UnregisterConnection`.
pub broadcast_to_match : ℕ → ℕ → Hub → Result HubError (Unit {0}) × Hub
unfolding broadcast match_users
broadcast_to_match match_id msg h =
    let (errors, h') = broadcast (match_users match_id h) msg h in (first_error errors, h')

-- The loop of `BroadcastAll` over the connections, in the order visited.
pub broadcast_all : List (ℕ × ℕ) → ℕ → Hub → Option HubError × Hub
unfolding send_at
broadcast_all [] msg h = (none, h)
broadcast_all ((user_id, conn) ∷ conns) msg h =
    let (r, h') = send_at conn msg h in
    let (first, h'') = broadcast_all conns msg h' in (elim r [ ok _ ↦ first | err e ↦ some e ], h'')

pub get_connection : ℕ → Hub → Option ℕ
get_connection user_id h = lookup user_id h.connections
