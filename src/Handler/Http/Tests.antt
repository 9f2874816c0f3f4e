-- ===== src/Handler/Http/Tests.antt =====
-- Rooms over HTTP on a small input.
use quiz.Prelude.{
  trim_prefix, trim_slash, ◌≡◌, ◌≢◌, refl, true, false, none, some, [], ◌∷◌, ◌++◌, Text, text_beq,
  codes, pos, leb_ℤ, lookup, text_eq, nat_eq,
}
use quiz.Account.{registered}
use quiz.Account.Tokens.{Claims}
use quiz.Account.Tokens.Plain.{plain}
use quiz.Hub.{Hub}
use quiz.Room.{new_room, create_room, generate_room_code, sprintf_06d, get_room}
use quiz.Handler.Http.{
  CreateRoomRequest, RoomResponse, validation_failed, created, found, max_players, room_code,
  validate_create_room_request, room_to_response, room_request, http_create_room, all_digits,
  http_get_room, handle_web_socket,
}
use quiz.Handler.Http.Opened.{IsQuestionCount, http_get_room-http_create_room}

abbrev claims : Claims
claims = record {
  user_id = 1;
  email = [];
  username = codes "u";
  user_type = registered;
  is_guest = false;
  issuer = [];
  subject = [];
  expires_at = 9;
  issued_at = 0;
  not_before = 0;
}

abbrev request : CreateRoomRequest
request = record {
  match_name = codes "quiz";
  max_players = pos 2;
  question_count = pos 5;
  per_question_seconds = pos 15;
  category = [];
}

abbrev code : Text
code = codes "100023"

abbrev response : RoomResponse
response = room_to_response code (new_room code 3 (room_request claims request))

opened :
    http_create_room (23 ∷ []) 3 true (some claims) (some request) []
    ≡ some (created response, (code, new_room code 3 (room_request claims request)) ∷ [])
unfolding http_create_room validate_create_room_request room_to_response create_room
    generate_room_code sprintf_06d new_room text_beq
opened = refl

http_get_room-http_create_room_example :
    (claims.is_guest ≡ false)
    × (request.match_name ≢ [])
    × (request.max_players ≡ pos 2)
    × IsQuestionCount request.question_count
    × (leb_ℤ request.per_question_seconds (pos 0) ≡ false)
    × (lookup {V = quiz.Room.PrivateRoom} response.room_code [] ≡ none)
    × (http_get_room true
          (codes "/v1/rooms/" ++ response.room_code)
          ((code, new_room code 3 (room_request claims request)) ∷ [])
        ≡ found response)
http_get_room-http_create_room_example =
    http_get_room-http_create_room (23 ∷ []) 3 claims request []
      ((code, new_room code 3 (room_request claims request)) ∷ []) response opened

three_players :
    http_create_room [] 3 true (some claims) (some (record request { max_players = pos 3 })) []
    ≡ some (validation_failed max_players, [])
unfolding http_create_room validate_create_room_request text_beq
three_players = refl

not_a_code : http_get_room true (codes "/v1/rooms/12345x/") [] ≡ validation_failed room_code
unfolding http_get_room trim_prefix trim_slash all_digits
not_a_code = refl

no_token :
    (h : Hub)
    → handle_web_socket plain
        (record {
          access_secret = [];
          refresh_secret = [];
          access_ttl = 1;
          refresh_ttl = 1;
          issuer = [];
        })
        3
        50
        []
        h
      ≡ (none, h)
unfolding handle_web_socket text_beq
no_token h = refl
