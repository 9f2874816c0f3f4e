-- ===== src/Room.antt =====
-- internal/match/room.go: private rooms. UUIDs are numbers, times are nanoseconds, Go strings are
-- byte lists. Each method runs under the mutex `mu`, so it is one step on the map; the one place
-- where `CreateRoom` releases the mutex in between is split into `generate_room_code` and
-- `store_room`. `rand.Intn(900000)` is the list `draws` of the numbers it will return.
pub mod Code
pub mod Rules
pub mod Invariant
pub mod Joining
pub mod Race
pub mod Others
mod Tests
use quiz.Prelude.{
  ℕ, zero, suc, ◌+◌, ◌/◌, ◌%◌, Bool, true, false, not, Option, none, some, List, [], ◌∷◌, ◌++◌, ltb,
  if◌then◌else◌, ◌==◌, Text, codes, Map, lookup, insert, nat_eq, text_eq, length, ℤ, pos, leb_ℤ,
  ltb_ℤ, Result, ok, err, ◌>>=◌, ◌>>◌, fail_if, or_fail, is_some, contains, map,
}

pub data RoomStatus : Type 0 where
  waiting starting active : RoomStatus

abbrev pub is_waiting : RoomStatus → Bool
is_waiting waiting = true
is_waiting starting = false
is_waiting active = false

pub record RoomPlayer : Type 0 where
  pub user_id : ℕ
  pub username : Text
  pub is_guest : Bool
  pub is_host : Bool
  pub joined_at : ℕ

pub record PrivateRoom : Type 0 where
  pub room_code : Text
  pub match_id : Option ℕ
  pub host_id : ℕ
  pub match_name : Text
  pub max_players : ℤ
  pub question_count : ℤ
  pub per_question_seconds : ℤ
  pub category : Text
  pub players : List RoomPlayer
  pub status : RoomStatus
  pub created_at : ℕ
  pub start_countdown : ℤ

pub record PrivateRoomRequest : Type 0 where
  pub host_id : ℕ
  pub username : Text
  pub is_guest : Bool
  pub match_name : Text
  pub max_players : ℤ
  pub question_count : ℤ
  pub per_question_seconds : ℤ
  pub category : Text

-- The field `rooms` of the manager.
abbrev pub Rooms : Type 0
Rooms = Map Text PrivateRoom

pub data RoomError : Type 0 where
  guests_cannot_create room_not_found not_accepting room_full already_in_room : RoomError
  host_cannot_rejoin cannot_be_started need_two_players : RoomError

-- `fmt.Sprintf("%06d", n)` for a number of at most six digits.
unfoldable pub sprintf_06d : ℕ → Text
sprintf_06d n =
    (48 + n / 100000 % 10)
    ∷ (48 + n / 10000 % 10)
    ∷ (48 + n / 1000 % 10)
    ∷ (48 + n / 100 % 10)
    ∷ (48 + n / 10 % 10)
    ∷ (48 + n % 10)
    ∷ []

abbrev pub code_of_draw : ℕ → Text
code_of_draw r = sprintf_06d (100000 + r)

-- The loop of `generateRoomCode`; `none` means that the given draws ran out.
unfoldable pub generate_room_code : List ℕ → Rooms → Option Text
generate_room_code [] rooms = none
generate_room_code (r ∷ draws) rooms =
    let rest = generate_room_code draws rooms in
    if is_some (lookup (code_of_draw r) rooms) then rest else some (code_of_draw r)

abbrev pub general : Text
general = codes "general"

unfoldable pub new_room : Text → ℕ → PrivateRoomRequest → PrivateRoom
new_room code now req = record {
  room_code = code;
  match_id = none;
  host_id = req.host_id;
  match_name = req.match_name;
  max_players = req.max_players;
  question_count = req.question_count;
  per_question_seconds = req.per_question_seconds;
  category = if req.category == [] then general else req.category;
  players =
      record {
        user_id = req.host_id;
        username = req.username;
        is_guest = false;
        is_host = true;
        joined_at = now;
      }
      ∷ [];
  status = waiting;
  created_at = now;
  start_countdown = pos 5;
}

-- `r.rooms[code] = room`, under the mutex.
pub store_room : PrivateRoom → Rooms → Rooms
store_room room rooms = insert room.room_code room rooms

-- `none`: the generator is still drawing. The new room is returned with its code.
unfoldable pub create_room :
    List ℕ → ℕ → PrivateRoomRequest → Rooms → Option (Result RoomError (Text × PrivateRoom) × Rooms)
unfolding store_room new_room
create_room draws now req rooms =
    if req.is_guest
    then some (err guests_cannot_create, rooms)
    else elim (generate_room_code draws rooms) [
      | none ↦ none
      | some code ↦
          let room = new_room code now req in some (ok (code, room), store_room room rooms)
    ]

abbrev pub user_ids : List RoomPlayer → List ℕ
user_ids = map λ p. p.user_id

-- The checks of `JoinRoom` in their order, and the appended player.
unfoldable pub join_found : PrivateRoom → ℕ → Text → Bool → ℕ → Result RoomError PrivateRoom
join_found room user_id username is_guest now = do
  fail_if (not (is_waiting room.status)) not_accepting
  fail_if (leb_ℤ room.max_players (pos (length room.players))) room_full
  fail_if (contains user_id (user_ids room.players)) already_in_room
  fail_if (user_id == room.host_id) host_cannot_rejoin
  ok (record room { players = room.players ++ player ∷ [] })
  where
    player : RoomPlayer
    player = record {
      user_id = user_id;
      username = username;
      is_guest = is_guest;
      is_host = false;
      joined_at = now;
    }

-- The room is shared by pointer: a method that succeeds has changed the room in the map.
abbrev pub commit :
    Text → Rooms → Result RoomError PrivateRoom → Result RoomError PrivateRoom × Rooms
commit code rooms (ok room) = (ok room, insert code room rooms)
commit code rooms (err e) = (err e, rooms)

unfoldable pub join_room : Text → ℕ → Text → Bool → ℕ → Rooms → Result RoomError PrivateRoom × Rooms
unfolding join_found
join_room code user_id username is_guest now rooms = commit code rooms do
  room ← or_fail (lookup code rooms) room_not_found
  join_found room user_id username is_guest now

unfoldable pub get_room : Text → Rooms → Result RoomError PrivateRoom
get_room code rooms = or_fail (lookup code rooms) room_not_found

pub start_found : PrivateRoom → ℕ → ℤ → Result RoomError PrivateRoom
start_found room match_id countdown_seconds = do
  fail_if (not (is_waiting room.status)) cannot_be_started
  fail_if (ltb (length room.players) 2) need_two_players
  ok (record room {
    match_id = some match_id;
    status = starting;
    start_countdown =
        if ltb_ℤ (pos 0) countdown_seconds then countdown_seconds else room.start_countdown;
  })

pub start_room : Text → ℕ → ℤ → Rooms → Result RoomError PrivateRoom × Rooms
unfolding start_found
start_room code match_id countdown_seconds rooms = commit code rooms do
  room ← or_fail (lookup code rooms) room_not_found
  start_found room match_id countdown_seconds
