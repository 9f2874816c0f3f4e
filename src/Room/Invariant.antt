-- ===== src/Room/Invariant.antt =====
-- What holds of every room of the registry, whatever calls have been made.
use quiz.Prelude.{
  ℕ, ◌≡◌, inl, inr, refl, ap, ◌∙◌, Bool, none, some, List, [], ◌∷◌, arith, Text, nat_eq, text_eq,
  lookup, lookup-All, insert-All, Option-cases, Bool-cases, ℤ, Result, ok, err, ◌>>=◌, or_fail,
}
use quiz.Room.{
  RoomError, room_not_found, PrivateRoom, PrivateRoomRequest, Rooms, new_room, create_room,
  join_found, commit, join_room, start_found, start_room, generate_room_code,
}
use quiz.Room.Rules.{
  Entry, IsRegistry, IsRoom, new_room-IsRoom, guest_player, join_found-Admits, Admits-IsRoom,
  start_found-Starts, Starts-IsRoom,
}

-- A call of a method of the manager, with what the environment supplies.
pub data Call : Type 0 where
  creates : List ℕ → ℕ → PrivateRoomRequest → Call
  joins : Text → ℕ → Text → Bool → ℕ → Call
  starts : Text → ℕ → ℤ → Call

unfoldable pub run_call : Call → Rooms → Rooms
run_call (creates draws now req) rooms = elim (create_room draws now req rooms) [
  | none ↦ rooms
  | some (r, rooms') ↦ rooms'
]
run_call (joins code user_id username is_guest now) rooms =
    (join_room code user_id username is_guest now rooms).1
run_call (starts code match_id countdown) rooms = (start_room code match_id countdown rooms).1

pub run_calls : List Call → Rooms → Rooms
run_calls [] rooms = rooms
run_calls (c ∷ cs) rooms = run_calls cs (run_call c rooms)

commit-IsRegistry :
    (code : Text) (rooms : Rooms) (m : PrivateRoom → Result RoomError PrivateRoom)
    → ((room r : PrivateRoom)
        → m room ≡ ok r
        → IsRoom room
        → (r.room_code ≡ room.room_code) × IsRoom r)
    → IsRegistry rooms
    → IsRegistry (commit code rooms (or_fail (lookup code rooms) room_not_found >>= m)).1
commit-IsRegistry code rooms m keeps v = elim (Option-cases (lookup code rooms)) [
  | inl missing ↦ rw missing v
  | inr (room, found) ↦
      let old = lookup-All Entry code rooms room v found in
      rw found (changed room old (m room) (keeps room))
]
  where
    changed :
        (room : PrivateRoom)
        → Entry (code, room)
        → (res : Result RoomError PrivateRoom)
        → ((r : PrivateRoom) → res ≡ ok r → IsRoom room → (r.room_code ≡ room.room_code) × IsRoom r)
        → IsRegistry (commit code rooms res).1
    changed room old (ok r) k =
        let (same, good) = k r refl old.1 in insert-All Entry code r rooms v (same ∙ old.0, good)
    changed room old (err e) k = v

create_room-IsRegistry :
    (draws : List ℕ) (now : ℕ) (req : PrivateRoomRequest) (rooms : Rooms)
    → IsRegistry rooms
    → IsRegistry (run_call (creates draws now req) rooms)
unfolding run_call create_room
create_room-IsRegistry draws now req rooms v = elim (Bool-cases req.is_guest) [
  | inl guest ↦ ground arith
  | inr user ↦ elim (Option-cases (generate_room_code draws rooms)) [
    | inl drawing ↦ ground arith
    | inr (code, e) ↦
        let stored =
          insert-All Entry code (new_room code now req) rooms v
            (unfold new_room in refl, new_room-IsRoom code now req) in
        ground arith
  ]
]

pub run_call-IsRegistry :
    (c : Call) (rooms : Rooms) → IsRegistry rooms → IsRegistry (run_call c rooms)
unfolding run_call join_room start_room
run_call-IsRegistry (creates draws now req) rooms v = create_room-IsRegistry draws now req rooms v
run_call-IsRegistry (joins code user_id username is_guest now) rooms v =
    commit-IsRegistry code rooms (λ room. join_found room user_id username is_guest now)
      (λ room r h w.
        let a = join_found-Admits room user_id username is_guest now r h in
        (
          ap (λ (x : PrivateRoom). x.room_code) a.4,
          Admits-IsRoom room (guest_player user_id username is_guest now) r refl a w,
        ))
      v
run_call-IsRegistry (starts code match_id countdown) rooms v =
    commit-IsRegistry code rooms (λ room. start_found room match_id countdown)
      (λ room r h w.
        let s = start_found-Starts room match_id countdown r h in
        (ap (λ (x : PrivateRoom). x.room_code) s.2, Starts-IsRoom room match_id countdown r s w))
      v

-- After any history of calls on a new manager every room stands under its own code; its host stands
-- first, is no guest and is the only host; no user is in a room twice; a room holds its host alone or
-- at most `max_players`; and it is waiting without a match, or starting with a match and at least two
-- players, and never active.
run_calls-IsRegistry : (cs : List Call) → IsRegistry (run_calls cs [])
unfolding run_calls
run_calls-IsRegistry cs = go cs [] tt
  where
    go : (ds : List Call) (rooms : Rooms) → IsRegistry rooms → IsRegistry (run_calls ds rooms)
    go [] rooms v = v
    go (d ∷ ds) rooms v = go ds (run_call d rooms) (run_call-IsRegistry d rooms v)

pub join_room-IsRegistry :
    (code : Text) (user_id : ℕ) (username : Text) (is_guest : Bool) (now : ℕ) (rooms : Rooms)
    → IsRegistry rooms
    → IsRegistry (join_room code user_id username is_guest now rooms).1
join_room-IsRegistry code user_id username is_guest now rooms v =
    unfold run_call in run_call-IsRegistry (joins code user_id username is_guest now) rooms v

pub start_room-IsRegistry :
    (code : Text) (match_id : ℕ) (countdown : ℤ) (rooms : Rooms)
    → IsRegistry rooms
    → IsRegistry (start_room code match_id countdown rooms).1
start_room-IsRegistry code match_id countdown rooms v =
    unfold run_call in run_call-IsRegistry (starts code match_id countdown) rooms v
