-- ===== src/Room/Tests.antt =====
-- The rooms of internal/match/room.go on small inputs.
use quiz.Prelude.{
  ℕ, ◌≡◌, ◌≢◌, ◌≤◌, ◌↔◌, refl, arith, Bool, true, false, some, List, [], ◌∷◌, ◌++◌, Text, text_beq,
  codes, insert, lookup, ℤ, pos, ok, err, is_ok, if◌then◌else◌, ◌==◌, nat_eq, text_eq, length,
}
use quiz.Room.{
  PrivateRoom, PrivateRoomRequest, Rooms, starting, already_in_room, not_accepting,
  cannot_be_started, room_full, code_of_draw, sprintf_06d, generate_room_code, new_room, store_room,
  create_room, join_room, get_room, start_room,
}
use quiz.Room.Code.{generate_room_code_total}
use quiz.Room.Rules.{IsRegistry, guest_player, new_room-IsRoom}
use quiz.Room.Invariant.{Call, creates, joins, starts}
use quiz.Room.Joining.{HasPlace, join_room_iff, start_room_once}
use quiz.Room.Race.{create_race}

abbrev request : ℕ → PrivateRoomRequest
request host = record {
  host_id = host;
  username = codes "host";
  is_guest = false;
  match_name = codes "quiz";
  max_players = pos 2;
  question_count = pos 5;
  per_question_seconds = pos 15;
  category = [];
}

abbrev code : Text
code = codes "100023"

abbrev first_room : PrivateRoom
first_room = new_room code 7 (request 1)

-- One room with its host alone.
abbrev one_room : Rooms
one_room = (code, first_room) ∷ []

one_room-IsRegistry : IsRegistry one_room
unfolding new_room
one_room-IsRegistry = ((refl, new_room-IsRoom code 7 (request 1)), tt)

drawn : generate_room_code (23 ∷ 24 ∷ []) [] ≡ some code
unfolding generate_room_code sprintf_06d text_beq
drawn = refl

drawn_again : generate_room_code (23 ∷ 24 ∷ []) one_room ≡ some (code_of_draw 24)
unfolding generate_room_code sprintf_06d text_beq
drawn_again = refl

generate_room_code_total_example :
    (c : Text) × (generate_room_code (23 ∷ 24 ∷ []) one_room ≡ some c)
generate_room_code_total_example =
    generate_room_code_total (23 ∷ 24 ∷ []) one_room (omega arith) (refl, (refl, tt)) (omega arith)

abbrev three_calls : List Call
three_calls =
    creates (23 ∷ []) 7 (request 1)
    ∷ joins code 2 (codes "guest") true 8
    ∷ starts code 99 (pos 3)
    ∷ []

abbrev guest : Text
guest = codes "guest"

join_room_iff_example :
    (is_ok (join_room code 2 guest true 8 one_room).0 ≡ true)
    ↔ ((room : PrivateRoom) × HasPlace code 2 one_room room)
join_room_iff_example = join_room_iff code 2 guest true 8 one_room one_room-IsRegistry

abbrev joined_room : PrivateRoom
joined_room = record first_room { players = first_room.players ++ guest_player 2 guest true 8 ∷ [] }

joined : (join_room code 2 guest true 8 one_room).0 ≡ ok joined_room
unfolding join_room new_room text_beq
joined = refl

full : (join_room code 3 guest true 9 (insert code joined_room one_room)).0 ≡ err room_full
unfolding join_room new_room text_beq
full = refl

twice : (join_room code 1 guest true 9 one_room).0 ≡ err already_in_room
unfolding join_room new_room text_beq
twice = refl

abbrev two_players : Rooms
two_players = (code, joined_room) ∷ []

abbrev started_room : PrivateRoom
started_room = record joined_room { match_id = some 99; status = starting; start_countdown = pos 3 }

started : (start_room code 99 (pos 3) two_players).0 ≡ ok started_room
unfolding start_room new_room text_beq
started = refl

start_room_once_example :
    let after = (start_room code 99 (pos 3) two_players).1 in
    (started_room.match_id ≡ some 99)
    × (started_room.status ≡ starting)
    × (2 ≤ length started_room.players)
    × ((j : Text)
        → lookup j after ≡ (if code == j then some started_room else lookup j two_players))
    × ((other : ℕ) (seconds : ℤ) → (start_room code other seconds after).0 ≡ err cannot_be_started)
    × ((user_id : ℕ) (username : Text) (is_guest : Bool) (now : ℕ)
        → (join_room code user_id username is_guest now after).0 ≡ err not_accepting)
start_room_once_example = start_room_once code 99 (pos 3) two_players started_room started

abbrev no_rooms : Rooms
no_rooms = []

created : create_room (23 ∷ []) 7 (request 1) [] ≡ some (ok (code, first_room), one_room)
unfolding create_room generate_room_code sprintf_06d new_room text_beq
created = refl

create_race_example :
    let after =
      store_room (new_room code 8 (request 2)) (store_room (new_room code 7 (request 1)) []) in
    (lookup code after ≡ some (new_room code 8 (request 2)))
    × ((j : Text) → lookup j after ≢ some (new_room code 7 (request 1)))
create_race_example =
    create_race (23 ∷ 24 ∷ []) (23 ∷ 24 ∷ []) 7 8 (request 1) (request 2) [] code tt drawn drawn
      (λ e. absurd (omega (arith, e)))

found : get_room code one_room ≡ ok first_room
unfolding get_room text_beq
found = refl
