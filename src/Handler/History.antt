-- ===== src/Handler/History.antt =====
-- The events of a server as a step relation, and what holds after any of them.
use mathlib.Core.List.{Perm}
use quiz.Prelude.{ℕ, List, [], ℤ}
use quiz.Scoring.{ScoringConfig}
use quiz.Scoring.Float.{Float64}
use quiz.Hub.{new_hub, register_connection, unregister_connection, broadcast_all}
use quiz.Hub.Connections.{IsFresh}
use quiz.Hub.History.{
  registers, unregisters, pumps, broadcasts_all, pump, Step-IsValid, new_hub-IsValid,
}
use quiz.Queue.{new_manager}
use quiz.Queue.Search.{IsOrder}
use quiz.Room.{PrivateRoomRequest}
use quiz.Room.Invariant.{creates, run_call, run_call-IsRegistry}
use quiz.Match.Finalize.{Clock}
use quiz.Match.Finalize
use quiz.Handler.Types.{Server, Sender, Env, Message}
use quiz.Handler.{handle_message, finalize_and_broadcast_match}
use quiz.Handler.Invariant.{IsServer, handle_message-IsServer, finalize-IsServer}

unfoldable pub new_server : ℤ → Server
new_server bot_wait_seconds = record {
  queue = new_manager bot_wait_seconds;
  rooms = [];
  hub = new_hub;
}

module _ (fl : Float64) (cfg : ScoringConfig fl.F) where
  -- One event: a connection opens or closes, the write pump takes a message, a message is handled,
  -- a room is created over HTTP, a match is finalised, or a leaderboard update is sent to all.
  pub data Step (s : Server) : Server → Type 0 where
    connects :
        (user_id conn : ℕ)
        → IsFresh conn s.hub
        → Step s (record s { hub = register_connection user_id conn s.hub })
    disconnects : (user_id : ℕ) → Step s (record s { hub = unregister_connection user_id s.hub })
    writes : (conn : ℕ) → Step s (record s { hub = pump conn s.hub })
    receives :
        (env : Env fl.F) (sender : Sender) (msg : Message)
        → IsOrder env.order
        → Step s (handle_message fl cfg env sender msg s).1
    creates_room :
        (draws : List ℕ) (now : ℕ) (req : PrivateRoomRequest)
        → Step s (record s { rooms = run_call (creates draws now req) s.rooms })
    finalizes :
        (env : Env fl.F) (match_id : ℕ) (replies : Finalize.Replies fl.F) (clocks : ℕ → Clock)
        → Step s (finalize_and_broadcast_match fl cfg env match_id replies clocks s).1
    announces :
        (conns : List (ℕ × ℕ)) (msg : ℕ)
        → Perm conns s.hub.connections
        → Step s (record s { hub = (broadcast_all conns msg s.hub).1 })

  pub data Reach (s : Server) : Server → Type 0 where
    start : Reach s s
    next : {t u : Server} → Reach s t → Step t u → Reach s u

  Step-IsServer : {s t : Server} → Step s t → IsServer s → IsServer t
  Step-IsServer {s} (connects u conn fresh) v = record {
    queue = v.queue;
    rooms = v.rooms;
    hub = Step-IsValid (registers u conn fresh) v.hub;
  }
  Step-IsServer {s} (disconnects u) v = record {
    queue = v.queue;
    rooms = v.rooms;
    hub = Step-IsValid (unregisters u) v.hub;
  }
  Step-IsServer {s} (writes conn) v = record {
    queue = v.queue;
    rooms = v.rooms;
    hub = Step-IsValid (pumps conn) v.hub;
  }
  Step-IsServer {s} (receives env sender msg perm) v =
      handle_message-IsServer fl cfg env sender msg s perm v
  Step-IsServer {s} (creates_room draws now req) v = record {
    queue = v.queue;
    rooms = run_call-IsRegistry (creates draws now req) s.rooms v.rooms;
    hub = v.hub;
  }
  Step-IsServer {s} (finalizes env match_id replies clocks) v =
      finalize-IsServer fl cfg env match_id replies clocks s v
  Step-IsServer {s} (announces conns msg order) v = record {
    queue = v.queue;
    rooms = v.rooms;
    hub = Step-IsValid (broadcasts_all conns msg order) v.hub;
  }

  -- After any sequence of events on a new server the three parts hold their invariants together:
  -- no two waiting entries could be paired; each room stands under its code, with its host first,
  -- no user twice, and a match exactly if it is starting; each connection of the hub is open and
  -- one user's, and no match lists a user twice.
  pub Reach-IsServer : (wait : ℤ) {s : Server} → Reach (new_server wait) s → IsServer s
  unfolding new_server
  Reach-IsServer wait start = record {
    queue = unfold new_manager in tt;
    rooms = tt;
    hub = new_hub-IsValid;
  }
  Reach-IsServer wait (next r step) = Step-IsServer step (Reach-IsServer wait r)
