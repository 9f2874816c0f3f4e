-- ===== src/Handler/Invariant.antt =====
-- What holds of the queue, the rooms and the hub together, whatever messages are handled.
use quiz.Prelude.{
  ℕ, inl, inr, true, false, Option, none, some, List, [], ◌∷◌, Text, Result, ok, err, Bool-cases,
  ◌==◌, nat_eq,
}
use quiz.Scoring.{ScoringConfig}
use quiz.Scoring.Float.{Float64}
use quiz.Hub.{Hub, HubError, join_match, leave_match, send_to_user, broadcast_to_match}
use quiz.Hub.History.{IsValid, joins, leaves, broadcasts, send_to_user-IsValid, Step-IsValid}
use quiz.Queue.{MatchPair, dequeue}
use quiz.Queue.Search.{IsOrder}
use quiz.Queue.Settled.{IsSettled, dequeue-IsSettled, enqueue_step-IsSettled}
use quiz.Room.{RoomError, PrivateRoom, Rooms, user_ids, join_room, start_room}
use quiz.Room.Rules.{IsRegistry}
use quiz.Room.Invariant.{join_room-IsRegistry, start_room-IsRegistry}
use quiz.Match.{QuestionPackItem}
use quiz.Match.Creating.{Match, create_random_match, create_private_match}
use quiz.Match.Creating
use quiz.Match.Answering.{submit_answer}
use quiz.Match.Answering
use quiz.Match.Finalize.{Clock, FinalizeError, MatchCompletePayload, finalize_match}
use quiz.Match.Finalize
use quiz.Handler.Types.{
  Server, Message, join_queue, cancel_queue, join_private, leave_match_of, accept_bot_fill,
  ready_state, submits, request_progress, unknown, ErrorCode, Outgoing, Sender, Env, Handled,
  of_hub, JoinQueuePayload,
}
use quiz.Handler.{
  join_all, join_pair, send, broadcast_all_of, send_error, send_questions, announce_pair,
  handle_cancel_queue, handle_leave_match, send_room_update, announce_room, start_private,
  handle_join_queue, joined_room, handle_join_private, handle_submit_answer, handle_message,
  finalize_and_broadcast_match, starts_match, with_payload, with_uuid, queued, acknowledge,
  broadcast_result,
}

pub record IsServer (s : Server) : Type 0 where
  pub queue : IsSettled s.queue.waiting
  pub rooms : IsRegistry s.rooms
  pub hub : IsValid s.hub

with_hub : (s : Server) (h : Hub) → IsServer s → IsValid h → IsServer (record s { hub = h })
with_hub s h v w = record { queue = v.queue; rooms = v.rooms; hub = w }

of_hub-IsServer :
    (s : Server) (p : Result HubError (Unit {0}) × Hub)
    → IsServer s
    → IsValid p.1
    → IsServer (of_hub s p).1
of_hub-IsServer s (ok u, h) v w = with_hub s h v w
of_hub-IsServer s (err e, h) v w = with_hub s h v w

pub join_all-IsValid : (m : ℕ) (us : List ℕ) (h : Hub) → IsValid h → IsValid (join_all m us h)
unfolding join_all
join_all-IsValid m [] h v = v
join_all-IsValid m (u ∷ us) h v =
    join_all-IsValid m us (join_match m u h) (Step-IsValid (joins m u) v)

pub join_pair-IsValid :
    (m u : ℕ) (pair : MatchPair) (h : Hub) → IsValid h → IsValid (join_pair m u pair h)
unfolding join_pair
join_pair-IsValid m u pair h v =
    let p1 = pair.player1.user_id in
    let p2 = pair.player2.user_id in
    let h1 = join_match m u h in
    let v1 : IsValid h1 = Step-IsValid (joins m u) v in
    elim (Bool-cases (p1 == u)) [
      | inl same1 ↦ elim (Bool-cases (p2 == u)) [
        | inl same2 ↦ rw (same1, same2) v1
        | inr other2 ↦ rw (same1, other2) (Step-IsValid (joins m p2) v1)
      ]
      | inr other1 ↦
          let v2 : IsValid (join_match m p1 h1) = Step-IsValid (joins m p1) v1 in
          elim (Bool-cases (p2 == u)) [
            | inl same2 ↦ rw (other1, same2) v2
            | inr other2 ↦ rw (other1, other2) (Step-IsValid (joins m p2) v2)
          ]
    ]

module _ {F : Type 0} (env : Env F) where
  send-IsServer :
      (u : ℕ) (msg : Outgoing F) (s : Server) → IsServer s → IsServer (send env u msg s).1
  unfolding send
  send-IsServer u msg s v =
      of_hub-IsServer s (send_to_user u (env.encode msg) s.hub) v
        (send_to_user-IsValid u (env.encode msg) s.hub v.hub)

  send_error-IsServer :
      (u : ℕ) (code : ErrorCode) (s : Server) → IsServer s → IsServer (send_error env u code s).1
  unfolding send_error
  send_error-IsServer u code s v = send-IsServer u (Outgoing.error_message code) s v

  broadcast_all_of-IsServer :
      (m : ℕ) (msg : Outgoing F) (s : Server) → IsServer s → IsServer (broadcast_all_of env m msg s)
  unfolding broadcast_all_of
  broadcast_all_of-IsServer m msg s v =
      let h = (broadcast_to_match m (env.encode msg) s.hub).1 in
      with_hub s h v (Step-IsValid (broadcasts m (env.encode msg)) v.hub)

  send_questions-IsServer :
      (m : ℕ) (qs : List QuestionPackItem) (s : Server)
      → IsServer s
      → IsServer (send_questions env m qs s)
  unfolding send_questions
  send_questions-IsServer m qs s v = broadcast_all_of-IsServer m _ s v

  announce_pair-IsServer :
      (u : ℕ) (pair : MatchPair) (s : Server)
      (r : Result Creating.CreateError (Match × List QuestionPackItem))
      → IsServer s
      → IsServer (announce_pair env u pair s r).1
  unfolding announce_pair
  announce_pair-IsServer u pair s (err e) v = send_error-IsServer u _ s v
  announce_pair-IsServer u pair s (ok (match, qs)) v = send_questions-IsServer match.id qs _ (
      broadcast_all_of-IsServer match.id _ _ (
        with_hub s (join_pair match.id u pair s.hub) v
          (join_pair-IsValid match.id u pair s.hub v.hub)))

  with_payload-IsServer :
      {P : Type 0} (u : ℕ) (o : Option P) (s : Server) (go : P → Handled)
      → IsServer s
      → ((p : P) → IsServer (go p).1)
      → IsServer (with_payload env u o s go).1
  with_payload-IsServer u none s go v w = send_error-IsServer u _ s v
  with_payload-IsServer u (some p) s go v w = w p

  with_uuid-IsServer :
      (u : ℕ) (code : ErrorCode) (s : Server) (o : Option ℕ) (go : ℕ → Handled)
      → IsServer s
      → ((id : ℕ) → IsServer (go id).1)
      → IsServer (with_uuid env u code s o go).1
  with_uuid-IsServer u code s none go v w = send_error-IsServer u code s v
  with_uuid-IsServer u code s (some id) go v w = w id

  dequeue-IsServer :
      (token : ℕ) (s : Server)
      → IsServer s
      → IsServer (record s { queue = (dequeue token s.queue).1 })
  dequeue-IsServer token s v = record {
    queue = dequeue-IsSettled token s.queue v.queue;
    rooms = v.rooms;
    hub = v.hub;
  }

  cancel-IsServer :
      (u : ℕ) (payload : Option Text) (s : Server)
      → IsServer s
      → IsServer (handle_cancel_queue env u payload s).1
  unfolding handle_cancel_queue
  cancel-IsServer u payload s v = with_payload-IsServer u payload s _ v (λ text.
      with_uuid-IsServer u _ s (env.parse_uuid text) _ v (λ token. dequeue-IsServer token s v))

  leave-IsServer :
      (u : ℕ) (payload : Option Text) (s : Server)
      → IsServer s
      → IsServer (handle_leave_match env u payload s).1
  unfolding handle_leave_match
  leave-IsServer u payload s v = with_payload-IsServer u payload s _ v (λ text.
      with_uuid-IsServer u _ s (env.parse_uuid text) _ v
        (λ m. with_hub s (leave_match m u s.hub) v (Step-IsValid (leaves m u) v.hub)))

  announce_room-IsServer :
      (u : ℕ) (match : Match) (qs : List QuestionPackItem) (s : Server)
      (p : Result RoomError PrivateRoom × Rooms)
      → IsRegistry p.1
      → IsServer s
      → IsServer (announce_room env u match qs s p).1
  unfolding announce_room send_room_update
  announce_room-IsServer u match qs s (err e, rooms) w v =
      send_error-IsServer u _ (record s { rooms = rooms })
        (record { queue = v.queue; rooms = w; hub = v.hub })
  announce_room-IsServer u match qs s (ok room, rooms) w v =
      let s1 : Server = record s {
        rooms = rooms;
        hub = join_all match.id (user_ids room.players) s.hub;
      } in
      let v1 : IsServer s1 = record {
        queue = v.queue;
        rooms = w;
        hub = join_all-IsValid match.id (user_ids room.players) s.hub v.hub;
      } in
      send-IsServer u _ (send_questions env match.id qs s1)
        (send_questions-IsServer match.id qs s1 v1)

  start_private-IsServer :
      (u : ℕ) (code : Text) (room : PrivateRoom) (s : Server)
      (r : Result Creating.CreateError (Match × List QuestionPackItem))
      → IsServer s
      → IsServer (start_private env u code room s r).1
  unfolding start_private
  start_private-IsServer u code room s (err e) v = send_error-IsServer u _ s v
  start_private-IsServer u code room s (ok (match, qs)) v =
      announce_room-IsServer u match qs s (start_room code match.id room.start_countdown s.rooms)
        (start_room-IsRegistry code match.id room.start_countdown s.rooms v.rooms) v

module _ (fl : Float64) (cfg : ScoringConfig fl.F) (env : Env fl.F) where
  queued-IsServer :
      (u token : ℕ) (req : JoinQueuePayload) (s : Server) (o : Option MatchPair)
      → IsServer s
      → IsServer (queued fl cfg env u token req s o).1
  unfolding queued
  queued-IsServer u token req s none v = send-IsServer env u _ s v
  queued-IsServer u token req s (some pair) v = announce_pair-IsServer env u pair s _ v

  joined_room-IsServer :
      (u : ℕ) (code : Text) (s : Server) (r : Result RoomError PrivateRoom)
      → IsServer s
      → IsServer (joined_room fl cfg env u code s r).1
  unfolding joined_room send_room_update
  joined_room-IsServer u code s (err e) v = send_error-IsServer env u _ s v
  joined_room-IsServer u code s (ok room) v = elim (Bool-cases (starts_match u room)) [
    | inl starts_now ↦ rw starts_now (start_private-IsServer env u code room s _ v)
    | inr waits ↦ rw waits (send-IsServer env u _ s v)
  ]

  acknowledge-IsServer :
      (u : ℕ) (text : Text) (s : Server) (r : Result Answering.SubmitError (Unit {0}))
      → IsServer s
      → IsServer (acknowledge fl cfg env u text s r).1
  acknowledge-IsServer u text s (err e) v = send_error-IsServer env u _ s v
  acknowledge-IsServer u text s (ok done) v = send-IsServer env u _ s v

  pub handle_message-IsServer :
      (sender : Sender) (msg : Message) (s : Server)
      → IsOrder env.order
      → IsServer s
      → IsServer (handle_message fl cfg env sender msg s).1
  unfolding handle_message handle_join_queue handle_join_private handle_submit_answer
  handle_message-IsServer sender (join_queue payload) s perm v =
      with_payload-IsServer env sender.user_id payload s _ v (λ req.
        queued-IsServer sender.user_id _ req _ _ (record {
          queue = enqueue_step-IsSettled env.order env.queue_token env.now _ s.queue perm v.queue;
          rooms = v.rooms;
          hub = v.hub;
        }))
  handle_message-IsServer sender (cancel_queue payload) s perm v =
      cancel-IsServer env sender.user_id payload s v
  handle_message-IsServer sender accept_bot_fill s perm v =
      send_error-IsServer env sender.user_id _ s v
  handle_message-IsServer sender (join_private payload) s perm v =
      with_payload-IsServer env sender.user_id payload s _ v (λ code.
        joined_room-IsServer sender.user_id code
          (record s {
            rooms =
                (join_room code sender.user_id sender.username sender.is_guest env.now s.rooms).1;
          })
          (join_room code sender.user_id sender.username sender.is_guest env.now s.rooms).0
          (record {
            queue = v.queue;
            rooms =
                join_room-IsRegistry code sender.user_id sender.username sender.is_guest env.now
                  s.rooms v.rooms;
            hub = v.hub;
          }))
  handle_message-IsServer sender ready_state s perm v = send_error-IsServer env sender.user_id _ s v
  handle_message-IsServer sender (submits payload) s perm v =
      with_payload-IsServer env sender.user_id payload s _ v (λ req.
        with_uuid-IsServer env sender.user_id _ s (env.parse_uuid req.match_id) _ v
          (λ m. acknowledge-IsServer sender.user_id req.match_id s _ v))
  handle_message-IsServer sender (leave_match_of payload) s perm v =
      leave-IsServer env sender.user_id payload s v
  handle_message-IsServer sender (request_progress true) s perm v = v
  handle_message-IsServer sender (request_progress false) s perm v =
      send_error-IsServer env sender.user_id _ s v
  handle_message-IsServer sender (unknown type) s perm v =
      send_error-IsServer env sender.user_id _ s v

  broadcast_result-IsServer :
      (match_id : ℕ) (s : Server) (r : Result FinalizeError (MatchCompletePayload fl.F))
      → IsServer s
      → IsServer (broadcast_result fl cfg env match_id s r).1
  broadcast_result-IsServer match_id s (err e) v = v
  broadcast_result-IsServer match_id s (ok payload) v = broadcast_all_of-IsServer env match_id _ s v

  pub finalize-IsServer :
      (match_id : ℕ) (replies : Finalize.Replies fl.F) (clocks : ℕ → Clock) (s : Server)
      → IsServer s
      → IsServer (finalize_and_broadcast_match fl cfg env match_id replies clocks s).1
  unfolding finalize_and_broadcast_match
  finalize-IsServer match_id replies clocks s v =
      broadcast_result-IsServer match_id s (finalize_match fl cfg match_id replies clocks).0 v
