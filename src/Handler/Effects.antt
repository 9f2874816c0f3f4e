-- ===== src/Handler/Effects.antt =====
-- What the handlers do to the rooms.
use quiz.Prelude.{
  ℕ, ◌≡◌, refl, ap, ◌∙◌, inl, inr, true, false, Option, none, some, List, Text, Result, ok, err,
  Bool-cases, ◌==◌, pos_part, nat_eq, text_eq, lookup,
}
use quiz.Scoring.{ScoringConfig}
use quiz.Scoring.Float.{Float64}
use quiz.Hub.{Hub, HubError, send_to_user}
use quiz.Queue.{MatchPair}
use quiz.Room.{RoomError, PrivateRoom, Rooms, join_room, start_room}
use quiz.Room.Others.{start_room-other}
use quiz.Match.{QuestionPackItem}
use quiz.Match.Creating.{Match, create_private_match}
use quiz.Match.Creating
use quiz.Match.Answering
use quiz.Match.Finalize.{Clock, FinalizeError, MatchCompletePayload}
use quiz.Match.Finalize
use quiz.Handler.Types.{
  Server, Message, join_queue, cancel_queue, join_private, leave_match_of, accept_bot_fill,
  ready_state, submits, request_progress, unknown, ErrorCode, Outgoing, Sender, Env, Handled,
  of_hub, JoinQueuePayload,
}
use quiz.Handler.{
  send, broadcast_all_of, send_error, send_questions, announce_pair, handle_cancel_queue,
  handle_leave_match, send_room_update, announce_room, start_private, handle_join_queue,
  joined_room, handle_join_private, handle_submit_answer, handle_message, starts_match,
  with_payload, with_uuid, queued, acknowledge, broadcast_result, finalize_and_broadcast_match,
  plan_of,
}

of_hub-rooms : (s : Server) (p : Result HubError (Unit {0}) × Hub) → (of_hub s p).1.rooms ≡ s.rooms
of_hub-rooms s (ok u, h) = refl
of_hub-rooms s (err e, h) = refl

module _ {F : Type 0} (env : Env F) where
  send-rooms : (u : ℕ) (msg : Outgoing F) (s : Server) → (send env u msg s).1.rooms ≡ s.rooms
  unfolding send
  send-rooms u msg s = of_hub-rooms s (send_to_user u (env.encode msg) s.hub)

  send_error-rooms :
      (u : ℕ) (code : ErrorCode) (s : Server) → (send_error env u code s).1.rooms ≡ s.rooms
  unfolding send_error
  send_error-rooms u code s = send-rooms u (Outgoing.error_message code) s

  with_payload-rooms :
      {P : Type 0} (u : ℕ) (o : Option P) (s : Server) (go : P → Handled)
      → ((p : P) → (go p).1.rooms ≡ s.rooms)
      → (with_payload env u o s go).1.rooms ≡ s.rooms
  with_payload-rooms u none s go w = send_error-rooms u _ s
  with_payload-rooms u (some p) s go w = w p

  with_uuid-rooms :
      (u : ℕ) (code : ErrorCode) (s : Server) (o : Option ℕ) (go : ℕ → Handled)
      → ((id : ℕ) → (go id).1.rooms ≡ s.rooms)
      → (with_uuid env u code s o go).1.rooms ≡ s.rooms
  with_uuid-rooms u code s none go w = send_error-rooms u code s
  with_uuid-rooms u code s (some id) go w = w id

  announce_pair-rooms :
      (u : ℕ) (pair : MatchPair) (s : Server)
      (r : Result Creating.CreateError (Match × List QuestionPackItem))
      → (announce_pair env u pair s r).1.rooms ≡ s.rooms
  unfolding announce_pair send_questions broadcast_all_of
  announce_pair-rooms u pair s (err e) = send_error-rooms u _ s
  announce_pair-rooms u pair s (ok (match, qs)) = refl

  pub announce_room-rooms :
      (u : ℕ) (match : Match) (qs : List QuestionPackItem) (s : Server)
      (p : Result RoomError PrivateRoom × Rooms)
      → (announce_room env u match qs s p).1.rooms ≡ p.1
  unfolding announce_room send_room_update send_questions broadcast_all_of
  announce_room-rooms u match qs s (err e, rooms) =
      send_error-rooms u _ (record s { rooms = rooms })
  announce_room-rooms u match qs s (ok room, rooms) = send-rooms u _ _

  start_private-other :
      (u : ℕ) (code other : Text) (room : PrivateRoom) (s : Server)
      (r : Result Creating.CreateError (Match × List QuestionPackItem))
      → other == code ≡ false
      → lookup code (start_private env u other room s r).1.rooms ≡ lookup code s.rooms
  unfolding start_private
  start_private-other u code other room s (err e) apart = ap (lookup code) (send_error-rooms u _ s)
  start_private-other u code other room s (ok (match, qs)) apart =
      ap (lookup code)
        (announce_room-rooms u match qs s (start_room other match.id room.start_countdown s.rooms))
      ∙ start_room-other code other match.id room.start_countdown s.rooms apart

module _ (fl : Float64) (cfg : ScoringConfig fl.F) (env : Env fl.F) where
  queued-rooms :
      (u token : ℕ) (req : JoinQueuePayload) (s : Server) (o : Option MatchPair)
      → (queued fl cfg env u token req s o).1.rooms ≡ s.rooms
  unfolding queued
  queued-rooms u token req s none = send-rooms env u _ s
  queued-rooms u token req s (some pair) = announce_pair-rooms env u pair s _

  acknowledge-rooms :
      (u : ℕ) (text : Text) (s : Server) (r : Result Answering.SubmitError (Unit {0}))
      → (acknowledge fl cfg env u text s r).1.rooms ≡ s.rooms
  acknowledge-rooms u text s (err e) = send_error-rooms env u _ s
  acknowledge-rooms u text s (ok done) = send-rooms env u _ s

  -- A player who starts no match changes no room but by joining.
  pub joined_room-rooms :
      (u : ℕ) (code : Text) (s : Server) (r : Result RoomError PrivateRoom)
      → ((room : PrivateRoom) → r ≡ ok room → starts_match u room ≡ false)
      → (joined_room fl cfg env u code s r).1.rooms ≡ s.rooms
  unfolding joined_room send_room_update
  joined_room-rooms u code s (err e) h = send_error-rooms env u _ s
  joined_room-rooms u code s (ok room) h = rw (h room refl) (send-rooms env u _ s)

  pub joined_room-other :
      (u : ℕ) (code other : Text) (s : Server) (r : Result RoomError PrivateRoom)
      → other == code ≡ false
      → lookup code (joined_room fl cfg env u other s r).1.rooms ≡ lookup code s.rooms
  unfolding joined_room send_room_update
  joined_room-other u code other s (err e) apart = ap (lookup code) (send_error-rooms env u _ s)
  joined_room-other u code other s (ok room) apart = elim (Bool-cases (starts_match u room)) [
    | inl starts ↦ rw starts (start_private-other env u code other room s _ apart)
    | inr waits ↦ rw waits (ap (lookup code) (send-rooms env u _ s))
  ]

  abbrev JoinsPrivate : Message → Type 0
  JoinsPrivate (join_private (some code)) = Unit {0}
  JoinsPrivate _ = ⊥

  -- Only a request to join a room changes a room.
  pub handle_message-rooms :
      (sender : Sender) (msg : Message) (s : Server)
      → ¬ JoinsPrivate msg
      → (handle_message fl cfg env sender msg s).1.rooms ≡ s.rooms
  unfolding handle_message handle_join_queue handle_cancel_queue handle_leave_match
      handle_join_private handle_submit_answer
  handle_message-rooms sender (join_queue payload) s n =
      with_payload-rooms env sender.user_id payload s _
        (λ req. queued-rooms sender.user_id _ req _ _)
  handle_message-rooms sender (cancel_queue payload) s n =
      with_payload-rooms env sender.user_id payload s _
        (λ text. with_uuid-rooms env sender.user_id _ s (env.parse_uuid text) _ (λ token. refl))
  handle_message-rooms sender accept_bot_fill s n = send_error-rooms env sender.user_id _ s
  handle_message-rooms sender (join_private none) s n = send_error-rooms env sender.user_id _ s
  handle_message-rooms sender (join_private (some code)) s n = absurd (n tt)
  handle_message-rooms sender ready_state s n = send_error-rooms env sender.user_id _ s
  handle_message-rooms sender (submits payload) s n =
      with_payload-rooms env sender.user_id payload s _ (λ req.
        with_uuid-rooms env sender.user_id _ s (env.parse_uuid req.match_id) _
          (λ m. acknowledge-rooms sender.user_id req.match_id s _))
  handle_message-rooms sender (leave_match_of payload) s n =
      with_payload-rooms env sender.user_id payload s _
        (λ text. with_uuid-rooms env sender.user_id _ s (env.parse_uuid text) _ (λ m. refl))
  handle_message-rooms sender (request_progress true) s n = refl
  handle_message-rooms sender (request_progress false) s n = send_error-rooms env sender.user_id _ s
  handle_message-rooms sender (unknown type) s n = send_error-rooms env sender.user_id _ s

  broadcast_result-rooms :
      (match_id : ℕ) (s : Server) (r : Result FinalizeError (MatchCompletePayload fl.F))
      → (broadcast_result fl cfg env match_id s r).1.rooms ≡ s.rooms
  unfolding broadcast_all_of
  broadcast_result-rooms match_id s (err e) = refl
  broadcast_result-rooms match_id s (ok payload) = refl

  pub finalize-rooms :
      (match_id : ℕ) (replies : Finalize.Replies fl.F) (clocks : ℕ → Clock) (s : Server)
      → (finalize_and_broadcast_match fl cfg env match_id replies clocks s).1.rooms ≡ s.rooms
  unfolding finalize_and_broadcast_match
  finalize-rooms match_id replies clocks s = broadcast_result-rooms match_id s _

  -- A room whose match cannot be created is left as the player has joined it.
  pub failed_start-rooms :
      (sender : Sender) (code : Text) (s : Server) (room : PrivateRoom) (e : Creating.CreateError)
      → (join_room code sender.user_id sender.username sender.is_guest env.now s.rooms).0 ≡ ok room
      → starts_match sender.user_id room ≡ true
      → (create_private_match fl env.creating
          (plan_of env
            (pos_part room.question_count)
            (pos_part room.per_question_seconds)
            room.category)
          code
          room.players).0
        ≡ err e
      → (handle_join_private fl cfg env sender (some code) s).1.rooms
        ≡ (join_room code sender.user_id sender.username sender.is_guest env.now s.rooms).1
  unfolding handle_join_private joined_room start_private
  failed_start-rooms sender code s room e joined starts fails =
      rw (joined, starts, fails) (send_error-rooms env sender.user_id _ _)
