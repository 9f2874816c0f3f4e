-- ===== src/Handler/Http.antt =====
-- internal/match/http.go and internal/match/ws_handler.go: rooms over HTTP, and the opening of a
-- WebSocket. A body is decoded before: `none` is JSON that is refused. A response is its status with
-- what its body shows; prose and the upgrade of the connection are left out.
pub mod Opened
mod Tests
use quiz.Prelude.{
  ℕ, suc, zero, trim_prefix, trim_slash, Bool, true, false, not, ◌&&◌, ◌||◌, Option, none, some,
  List, [], ◌∷◌, ◌++◌, map, if◌then◌else◌, ◌==◌, nat_eq, text_eq, int_eq, Text, codes, ℤ, pos, ◌-ℤ◌,
  leb_ℤ, leb, length, Result, ok, err,
}
use quiz.Account.Tokens.{Claims, Jwt, Manager, validate_access_token, TokenError}
use quiz.Hub.{Hub, register_connection}
use quiz.Room.{
  PrivateRoom, PrivateRoomRequest, RoomPlayer, RoomError, room_not_found, Rooms, RoomStatus,
  create_room, get_room,
}

pub record CreateRoomRequest : Type 0 where
  pub match_name : Text
  pub max_players : ℤ
  pub question_count : ℤ
  pub per_question_seconds : ℤ
  pub category : Text

-- The fields that a validation error names.
pub data Field : Type 0 where
  match_name max_players question_count per_question_seconds room_code : Field

-- A player as `roomToResponse` shows one.
pub record PlayerResponse : Type 0 where
  pub user_id : ℕ
  pub username : Text
  pub is_host : Bool
  pub joined_at : ℕ

-- `roomToResponse`
pub record RoomResponse : Type 0 where
  pub room_code : Text
  pub match_name : Text
  pub max_players : ℤ
  pub question_count : ℤ
  pub per_question_seconds : ℤ
  pub category : Text
  pub status : RoomStatus
  pub players : List PlayerResponse
  pub slots_remaining : ℤ
  pub created_at : ℕ

pub data Response : Type 0 where
  method_not_allowed unauthorized guests_cannot_create bad_json : Response
  validation_failed : Field → Response
  internal_error : RoomError → Response
  not_found : Response
  created found : RoomResponse → Response

-- `none` for a valid request.
pub validate_create_room_request : CreateRoomRequest → Option Field
validate_create_room_request req =
    if req.match_name == []
    then some match_name
    else if not (req.max_players == pos 2)
    then some max_players
    else if not (req.question_count == pos 5)
        && (not (req.question_count == pos 10) && not (req.question_count == pos 15))
    then some question_count
    else if leb_ℤ req.per_question_seconds (pos 0)
    then some per_question_seconds
    else none

player_to_response : RoomPlayer → PlayerResponse
player_to_response p = record {
  user_id = p.user_id;
  username = p.username;
  is_host = p.is_host;
  joined_at = p.joined_at;
}

pub room_to_response : Text → PrivateRoom → RoomResponse
unfolding player_to_response
room_to_response code room = record {
  room_code = code;
  match_name = room.match_name;
  max_players = room.max_players;
  question_count = room.question_count;
  per_question_seconds = room.per_question_seconds;
  category = room.category;
  status = room.status;
  players = map player_to_response room.players;
  slots_remaining = room.max_players -ℤ pos (length room.players);
  created_at = room.created_at;
}

abbrev pub room_request : Claims → CreateRoomRequest → PrivateRoomRequest
room_request claims req = record {
  host_id = claims.user_id;
  username = claims.username;
  is_guest = false;
  match_name = req.match_name;
  max_players = req.max_players;
  question_count = req.question_count;
  per_question_seconds = req.per_question_seconds;
  category = req.category;
}

-- What follows `CreateRoom`; `none` while a code is being drawn.
abbrev pub respond_created :
    Option (Result RoomError (Text × PrivateRoom) × Rooms) → Option (Response × Rooms)
respond_created none = none
respond_created (some (err e, rooms)) = some (internal_error e, rooms)
respond_created (some (ok (code, room), rooms)) = some (created (room_to_response code room), rooms)

abbrev pub create_valid :
    List ℕ → ℕ → Claims → CreateRoomRequest → Rooms → Option Field → Option (Response × Rooms)
create_valid draws now claims req rooms (some field) = some (validation_failed field, rooms)
create_valid draws now claims req rooms none =
    respond_created (create_room draws now (room_request claims req) rooms)

-- `HTTPHandlers.CreateRoom`, for the claims that the middleware has put into the context.
pub http_create_room :
    List ℕ → ℕ → Bool → Option Claims → Option CreateRoomRequest → Rooms → Option (Response × Rooms)
unfolding validate_create_room_request room_to_response
http_create_room draws now false claims body rooms = some (method_not_allowed, rooms)
http_create_room draws now true none body rooms = some (unauthorized, rooms)
http_create_room draws now true (some claims) none rooms =
    some (if claims.is_guest then guests_cannot_create else bad_json, rooms)
http_create_room draws now true (some claims) (some req) rooms =
    if claims.is_guest
    then some (guests_cannot_create, rooms)
    else create_valid draws now claims req rooms (validate_create_room_request req)

pub all_digits : Text → Bool
all_digits [] = true
all_digits (c ∷ s) = (leb 48 c && leb c 57) && all_digits s

abbrev respond_found : Text → Result RoomError PrivateRoom → Response
respond_found code (err room_not_found) = not_found
respond_found code (err e) = internal_error e
respond_found code (ok room) = found (room_to_response code room)

-- `HTTPHandlers.GetRoom`, for the path of the request.
pub http_get_room : Bool → Text → Rooms → Response
unfolding trim_prefix trim_slash all_digits room_to_response
http_get_room false path rooms = method_not_allowed
http_get_room true path rooms =
    let code = trim_slash (trim_prefix path (codes "/v1/rooms/")) in
    if not (length code == 6)
    then validation_failed room_code
    else if not (all_digits code)
    then validation_failed room_code
    else respond_found code (get_room code rooms)

-- `HandleWebSocket` up to the registration: `none` is a request that is refused, otherwise the user
-- whose connection is registered.
pub handle_web_socket : Jwt → Manager → ℕ → ℕ → Text → Hub → Option (ℕ × Text × Bool) × Hub
handle_web_socket j m now conn token h =
    if token == [] then (none, h) else elim (validate_access_token j m now token) [
      | err e ↦ (none, h)
      | ok claims ↦ (
        some (claims.user_id, claims.username, claims.is_guest),
        register_connection claims.user_id conn h,
      )
    ]
