-- ===== src/Handler/Types.antt =====
-- The messages of internal/match/handler.go and pkg/http/ws/message.go, and what the handlers share.
use quiz.Prelude.{ℕ, Bool, Option, List, nat_eq, text_eq, int_eq, Text, ℤ, Result, ok, err}
use quiz.Hub.{Hub, HubError}
use quiz.Queue.{Waiting, Manager, DequeueError}
use quiz.Room.{Rooms}
use quiz.Match.{MatchMode}
use quiz.Match.Creating.{Match, Plan, create_random_match, create_private_match}
use quiz.Match.Creating
use quiz.Match.Answering.{Submission, submit_answer}
use quiz.Match.Answering
use quiz.Match.Finalize.{FinalizeError, MatchCompletePayload}

-- The state that the handlers share.
pub record Server : Type 0 where
  pub queue : Manager
  pub rooms : Rooms
  pub hub : Hub

pub record JoinQueuePayload : Type 0 where
  pub category : Text
  pub question_count : ℤ

pub record SubmitAnswerPayload : Type 0 where
  pub match_id : Text
  pub question_token : Text
  pub answer : Text

-- The types of messages that `handleMessage` knows, with their payloads, and the others.
pub data Message : Type 0 where
  join_queue : Option JoinQueuePayload → Message
  cancel_queue join_private leave_match_of : Option Text → Message
  accept_bot_fill ready_state : Message
  submits : Option SubmitAnswerPayload → Message
  request_progress : Bool → Message
  unknown : Text → Message

-- The codes of internal/http/errors that are sent.
pub data ErrorCode : Type 0 where
  unknown_message_type invalid_payload invalid_queue_token invalid_match_id : ErrorCode
  match_creation_failed join_failed room_start_failed submit_failed : ErrorCode
  feature_not_available : ErrorCode

-- `ws.Player`
pub record WsPlayer : Type 0 where
  pub user_id : ℕ
  pub username : Text

pub record MatchFoundPayload : Type 0 where
  pub match_id : ℕ
  pub mode : MatchMode
  pub question_count : ℕ
  pub per_question_seconds : ℕ
  pub global_timeout_seconds : ℕ
  pub players : List WsPlayer

-- `ws.QuestionPayload`: no correct answer.
pub record QuestionPayload : Type 0 where
  pub order : ℤ
  pub id : Text
  pub prompt : Text
  pub options : List Text
  pub token : Text

pub record PrivateRoomUpdatePayload : Type 0 where
  pub match_id : Option ℕ
  pub room_code : Text
  pub players : List WsPlayer
  pub slots_remaining : ℤ

-- What is sent. A position of `none` stands for -1.
pub data Outgoing (F : Type 0) : Type 0 where
  error_message : ErrorCode → Outgoing F
  queue_update : ℕ → Option ℕ → Outgoing F
  match_found : MatchFoundPayload → Outgoing F
  question_batch : ℕ → List QuestionPayload → ℕ → Outgoing F
  private_room_update : PrivateRoomUpdatePayload → Outgoing F
  answer_ack : Text → ℕ → Outgoing F
  match_complete : MatchCompletePayload F → Outgoing F

-- The user of a connection.
pub record Sender : Type 0 where
  pub user_id : ℕ
  pub username : Text
  pub is_guest : Bool

pub record Env (F : Type 0) : Type 0 where
  pub encode : Outgoing F → ℕ
  pub parse_uuid : Text → Option ℕ
  pub order : Waiting → Waiting
  pub position_order : Waiting → Waiting
  pub queue_token : ℕ
  pub match_id : ℕ
  pub seed_hash : Text
  pub creating : Creating.Replies
  pub answering : Answering.Replies F
  pub now : ℕ

-- What a handler returns to the read pump.
pub data HandlerError : Type 0 where
  hub_error : HubError → HandlerError
  queue_error : DequeueError → HandlerError
  finalize_error : FinalizeError → HandlerError

abbrev pub Handled : Type 0
Handled = Result HandlerError (Unit {0}) × Server

abbrev pub of_hub : Server → Result HubError (Unit {0}) × Hub → Handled
of_hub s (ok _, h) = (ok tt, record s { hub = h })
of_hub s (err e, h) = (err (hub_error e), record s { hub = h })
