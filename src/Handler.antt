-- ===== src/Handler.antt =====
-- internal/match/handler.go: the messages of a WebSocket and what they do to the queue, the rooms
-- and the hub. A message is handled as one step. Its JSON is read before: `none` is a payload that
-- `json.Unmarshal` refuses. A message that is sent is a number again (`encode`); the prose of an
-- error is left out. What comes from outside while a message is handled is in `Env`; what the match
-- service asks of Redis and Postgres meanwhile is what the functions of Match return.
pub mod Types
pub mod Invariant
pub mod History
pub mod Refusals
pub mod Effects
pub mod Stuck
pub mod Http
pub mod Starting
pub mod Told
mod Tests
use quiz.Prelude.{
  ℕ, Bool, true, false, not, ◌&&◌, ◌||◌, Option, none, some, List, [], ◌∷◌, map, if◌then◌else◌,
  ◌==◌, nat_eq, text_eq, int_eq, Text, codes, ℤ, pos, ◌-ℤ◌, pos_part, Result, ok, err, is_some,
  length,
}
use quiz.Scoring.{ScoringConfig}
use quiz.Scoring.Float.{Float64}
use quiz.Hub.{Hub, HubError, join_match, leave_match, send_to_user, broadcast_to_match}
use quiz.Queue.{
  WaitingPlayer, Waiting, Manager, MatchPair, MatchmakingRequest, enqueue, dequeue, DequeueError,
  get_position,
}
use quiz.Room.{RoomError, RoomPlayer, PrivateRoom, Rooms, user_ids, join_room, start_room}
use quiz.Match.{QuestionPackItem, MatchMode}
use quiz.Match.Creating.{Match, Plan, create_random_match, create_private_match}
use quiz.Match.Creating
use quiz.Match.Answering.{Submission, submit_answer}
use quiz.Match.Answering
use quiz.Match.Finalize.{Clock, FinalizeError, MatchCompletePayload, finalize_match}
use quiz.Match.Finalize
use quiz.Handler.Types.{
  Server, JoinQueuePayload, SubmitAnswerPayload, Message, join_queue, cancel_queue, join_private,
  leave_match_of, accept_bot_fill, ready_state, submits, request_progress, unknown, ErrorCode,
  unknown_message_type, invalid_payload, invalid_queue_token, invalid_match_id,
  match_creation_failed, join_failed, room_start_failed, submit_failed, feature_not_available,
  WsPlayer, MatchFoundPayload, QuestionPayload, PrivateRoomUpdatePayload, Outgoing, error_message,
  queue_update, match_found, question_batch, private_room_update, answer_ack, match_complete,
  Sender, Env, HandlerError, hub_error, queue_error, finalize_error, Handled, of_hub,
}

-- The category of a request to join the queue.
pub category_of : JoinQueuePayload → Text
category_of req = if req.category == [] then codes "general" else req.category

-- The count of questions: 5, 10 or 15.
pub question_count_of : JoinQueuePayload → ℕ
question_count_of req =
    if req.question_count == pos 5 then 5 else if req.question_count == pos 15 then 15 else 10

abbrev pub question_payload : QuestionPackItem → QuestionPayload
question_payload q = record {
  order = q.order;
  id = q.id;
  prompt = q.prompt;
  options = q.options;
  token = q.token;
}

abbrev ws_player : RoomPlayer → WsPlayer
ws_player p = record { user_id = p.user_id; username = p.username }

abbrev ws_waiting : WaitingPlayer → WsPlayer
ws_waiting p = record { user_id = p.user_id; username = p.username }

pub match_found_of : Match → MatchPair → MatchFoundPayload
match_found_of match pair = record {
  match_id = match.id;
  mode = match.mode;
  question_count = match.question_count;
  per_question_seconds = match.per_question_seconds;
  global_timeout_seconds = match.global_timeout_seconds;
  players = ws_waiting pair.player1 ∷ ws_waiting pair.player2 ∷ [];
}

pub room_update_of : PrivateRoom → PrivateRoomUpdatePayload
room_update_of room = record {
  match_id = room.match_id;
  room_code = room.room_code;
  players = map ws_player room.players;
  slots_remaining = room.max_players -ℤ pos (length room.players);
}

-- Whether the player who has just joined starts the match of the room.
pub starts_match : ℕ → PrivateRoom → Bool
starts_match user_id room =
    length room.players == 2 && (not (user_id == room.host_id) && not (is_some room.match_id))

-- The loop of `JoinMatch` over the players.
pub join_all : ℕ → List ℕ → Hub → Hub
join_all match_id [] h = h
join_all match_id (user_id ∷ users) h = join_all match_id users (join_match match_id user_id h)

-- The calls of `JoinMatch` for a pair: the user first, then the others of the pair.
pub join_pair : ℕ → ℕ → MatchPair → Hub → Hub
join_pair match_id user_id pair h =
    let p1 = pair.player1.user_id in
    let p2 = pair.player2.user_id in
    let h1 = join_match match_id user_id h in
    let h2 = if p1 == user_id then h1 else join_match match_id p1 h1 in
    if p2 == user_id then h2 else join_match match_id p2 h2

module _ {F : Type 0} (env : Env F) where
  pub send : ℕ → Outgoing F → Server → Handled
  send user_id msg s = of_hub s (send_to_user user_id (env.encode msg) s.hub)

  -- `BroadcastToMatch`, whose error the code ignores.
  pub broadcast_all_of : ℕ → Outgoing F → Server → Server
  broadcast_all_of match_id msg s = record s {
    hub = (broadcast_to_match match_id (env.encode msg) s.hub).1;
  }

  pub send_error : ℕ → ErrorCode → Server → Handled
  unfolding send
  send_error user_id code s = send user_id (error_message code) s

  pub send_questions : ℕ → List QuestionPackItem → Server → Server
  unfolding broadcast_all_of
  send_questions match_id questions s =
      broadcast_all_of match_id (question_batch match_id (map question_payload questions) env.now) s

  abbrev pub plan_of : ℕ → ℕ → Text → Plan
  plan_of question_count per_question_sec category = record {
    match_id = env.match_id;
    seed_hash = env.seed_hash;
    question_count = question_count;
    per_question_sec = per_question_sec;
    category = category;
    now = env.now;
  }

  -- A payload that can be read goes on, one that cannot is an error.
  abbrev pub with_payload : {P : Type 0} → ℕ → Option P → Server → (P → Handled) → Handled
  with_payload user_id none s go = send_error user_id invalid_payload s
  with_payload user_id (some p) s go = go p

  -- The same for what `uuid.Parse` returns.
  abbrev pub with_uuid : ℕ → ErrorCode → Server → Option ℕ → (ℕ → Handled) → Handled
  with_uuid user_id code s none go = send_error user_id code s
  with_uuid user_id code s (some id) go = go id

  -- What follows `CreateRandomMatch`.
  pub announce_pair :
      ℕ → MatchPair → Server → Result Creating.CreateError (Match × List QuestionPackItem) → Handled
  unfolding send_error join_pair match_found_of send_questions broadcast_all_of
  announce_pair user_id pair s (err e) = send_error user_id match_creation_failed s
  announce_pair user_id pair s (ok (match, questions)) =
      let joined = record s { hub = join_pair match.id user_id pair s.hub } in
      let told = broadcast_all_of match.id (match_found (match_found_of match pair)) joined in
      (ok tt, send_questions match.id questions told)

  pub handle_cancel_queue : ℕ → Option Text → Server → Handled
  unfolding send_error
  handle_cancel_queue user_id payload s = with_payload user_id payload s (λ text.
      with_uuid user_id invalid_queue_token s (env.parse_uuid text) (λ token.
        (let (r, queue) = dequeue token s.queue in
          (elim r [ ok _ ↦ ok tt | err e ↦ err (queue_error e) ], record s { queue = queue }))))

  pub handle_leave_match : ℕ → Option Text → Server → Handled
  unfolding send_error
  handle_leave_match user_id payload s = with_payload user_id payload s (λ text.
      with_uuid user_id invalid_match_id s (env.parse_uuid text)
        (λ match_id. (ok tt, record s { hub = leave_match match_id user_id s.hub })))

  pub send_room_update : ℕ → PrivateRoom → Server → Handled
  unfolding send room_update_of
  send_room_update user_id room s = send user_id (private_room_update (room_update_of room)) s

  -- What follows `StartRoom`, which has changed the room that the handler holds too.
  pub announce_room :
      ℕ → Match → List QuestionPackItem → Server → Result RoomError PrivateRoom × Rooms → Handled
  unfolding send_error send_questions send_room_update join_all
  announce_room user_id match questions s (err e, rooms) =
      send_error user_id room_start_failed (record s { rooms = rooms })
  announce_room user_id match questions s (ok room, rooms) = send_room_update user_id room (
      send_questions match.id questions
        (record s { rooms = rooms; hub = join_all match.id (user_ids room.players) s.hub }))

  -- What follows `CreatePrivateMatch`.
  pub start_private :
      ℕ
      → Text
      → PrivateRoom
      → Server
      → Result Creating.CreateError (Match × List QuestionPackItem)
      → Handled
  unfolding send_error announce_room
  start_private user_id code room s (err e) = send_error user_id match_creation_failed s
  start_private user_id code room s (ok (match, questions)) =
      announce_room user_id match questions s
        (start_room code match.id room.start_countdown s.rooms)

module _ (fl : Float64) (cfg : ScoringConfig fl.F) (env : Env fl.F) where
  -- What follows `Enqueue`.
  pub queued : ℕ → ℕ → JoinQueuePayload → Server → Option MatchPair → Handled
  unfolding send announce_pair category_of question_count_of
  queued user_id token req s none =
      send env user_id (queue_update token (get_position env.position_order token s.queue)) s
  queued user_id token req s (some pair) =
      announce_pair env user_id pair s
        (create_random_match fl env.creating
          (plan_of env (question_count_of req) 15 (category_of req)) pair).0

  pub handle_join_queue : Sender → Option JoinQueuePayload → Server → Handled
  unfolding send_error queued category_of
  handle_join_queue sender payload s = with_payload env sender.user_id payload s (λ req.
      (let (token, found, queue) =
          enqueue env.order env.queue_token env.now
            (record {
              user_id = sender.user_id;
              username = sender.username;
              is_guest = sender.is_guest;
              preferred_category = category_of req;
              preferred_difficulty = [];
              bot_ok = true;
            })
            s.queue in
        queued sender.user_id token req (record s { queue = queue }) found))

  -- What follows `JoinRoom`. The counts of a room are positive, since `validateCreateRoomRequest`
  -- lets no others pass.
  pub joined_room : ℕ → Text → Server → Result RoomError PrivateRoom → Handled
  unfolding send_error send_room_update start_private starts_match
  joined_room user_id code s (err e) = send_error env user_id join_failed s
  joined_room user_id code s (ok room) =
      if starts_match user_id room
      then start_private env user_id code room s
          (create_private_match fl env.creating
            (plan_of env (pos_part room.question_count) (pos_part room.per_question_seconds)
              room.category)
            code room.players).0
      else send_room_update env user_id room s

  pub handle_join_private : Sender → Option Text → Server → Handled
  unfolding send_error joined_room
  handle_join_private sender payload s = with_payload env sender.user_id payload s (λ code.
      (let (r, rooms) =
          join_room code sender.user_id sender.username sender.is_guest env.now s.rooms in
        joined_room sender.user_id code (record s { rooms = rooms }) r))

  -- What follows `SubmitAnswer`.
  abbrev pub acknowledge : ℕ → Text → Server → Result Answering.SubmitError (Unit {0}) → Handled
  acknowledge user_id match_id s (err e) = send_error env user_id submit_failed s
  acknowledge user_id match_id s (ok _) = send env user_id (answer_ack match_id env.now) s

  pub handle_submit_answer : ℕ → Option SubmitAnswerPayload → Server → Handled
  unfolding send_error send
  handle_submit_answer user_id payload s = with_payload env user_id payload s (λ req.
      with_uuid env user_id invalid_match_id s (env.parse_uuid req.match_id) (λ match_id.
        acknowledge user_id req.match_id s
          (submit_answer fl cfg env.answering
            (record {
              question_token = req.question_token;
              answer = req.answer;
              submitted_at = env.now;
            })
            env.now).0))

  -- `handleMessage`
  pub handle_message : Sender → Message → Server → Handled
  unfolding handle_join_queue handle_cancel_queue handle_join_private handle_submit_answer
      handle_leave_match send_error
  handle_message sender (join_queue payload) s = handle_join_queue sender payload s
  handle_message sender (cancel_queue payload) s = handle_cancel_queue env sender.user_id payload s
  handle_message sender accept_bot_fill s = send_error env sender.user_id feature_not_available s
  handle_message sender (join_private payload) s = handle_join_private sender payload s
  handle_message sender ready_state s = send_error env sender.user_id feature_not_available s
  handle_message sender (submits payload) s = handle_submit_answer sender.user_id payload s
  handle_message sender (leave_match_of payload) s = handle_leave_match env sender.user_id payload s
  handle_message sender (request_progress readable) s =
      if readable then (ok tt, s) else send_error env sender.user_id invalid_payload s
  handle_message sender (unknown type) s = send_error env sender.user_id unknown_message_type s

  abbrev pub broadcast_result :
      ℕ → Server → Result FinalizeError (MatchCompletePayload fl.F) → Handled
  broadcast_result match_id s (err e) = (err (finalize_error e), s)
  broadcast_result match_id s (ok payload) =
      (ok tt, broadcast_all_of env match_id (match_complete payload) s)

  -- `FinalizeAndBroadcastMatch`
  pub finalize_and_broadcast_match : ℕ → Finalize.Replies fl.F → (ℕ → Clock) → Server → Handled
  unfolding broadcast_all_of
  finalize_and_broadcast_match match_id replies clocks s =
      broadcast_result match_id s (finalize_match fl cfg match_id replies clocks).0
