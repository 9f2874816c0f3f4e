-- ===== src/Room/Others.antt =====
-- What joining and starting a room leave of the other rooms, and of a room that is waiting.
use quiz.Prelude.{
  ℕ, ◌≤◌, ◌≡◌, refl, ap, ◌∙◌, arith, inl, inr, Bool, true, false, some, List, [], ◌∷◌, ◌++◌, Text,
  ℤ, pos, ltb_ℤ, Result, ok, err, if◌then◌else◌, ◌==◌, nat_eq, text_eq, lookup, insert,
  lookup-insert, lookup-insert_self, length, Option-cases, Bool-cases, text_beq_iff,
}
use quiz.Room.{
  RoomError, RoomPlayer, PrivateRoom, PrivateRoomRequest, Rooms, is_waiting, starting, commit,
  join_found, join_room, create_room, start_found, start_room,
}
use quiz.Room.Joining.{create_room_lem}
use quiz.Room.Invariant.{creates, run_call}
use quiz.Room.Rules.{guest_player, join_found-Admits}

commit-other :
    (code other : Text) (rooms : Rooms) (r : Result RoomError PrivateRoom)
    → other == code ≡ false
    → lookup code (commit other rooms r).1 ≡ lookup code rooms
commit-other code other rooms (ok room) apart = rw (lookup-insert other code room rooms, apart) refl
commit-other code other rooms (err e) apart = refl

pub join_room-other :
    (code other : Text) (u : ℕ) (name : Text) (is_guest : Bool) (now : ℕ) (rooms : Rooms)
    → other == code ≡ false
    → lookup code (join_room other u name is_guest now rooms).1 ≡ lookup code rooms
unfolding join_room
join_room-other code other u name is_guest now rooms apart = commit-other code other rooms _ apart

pub start_room-other :
    (code other : Text) (match_id : ℕ) (countdown : ℤ) (rooms : Rooms)
    → other == code ≡ false
    → lookup code (start_room other match_id countdown rooms).1 ≡ lookup code rooms
unfolding start_room
start_room-other code other match_id countdown rooms apart = commit-other code other rooms _ apart

-- What a join of the room under `code` comes to: nothing, or one player more.
abbrev pub Joined :
    Text → PrivateRoom → RoomPlayer → Rooms → Result RoomError PrivateRoom × Rooms → Type 0
Joined code room player rooms (err e, rooms') = rooms' ≡ rooms
Joined code room player rooms (ok r, rooms') =
    (lookup code rooms' ≡ some r)
    × (is_waiting room.status ≡ true)
    × (r ≡ record room { players = room.players ++ player ∷ [] })

commit-Joined :
    (code : Text) (room : PrivateRoom) (player : RoomPlayer) (rooms : Rooms)
    (r : Result RoomError PrivateRoom)
    → ((new : PrivateRoom)
        → r ≡ ok new
        → (is_waiting room.status ≡ true)
          × (new ≡ record room { players = room.players ++ player ∷ [] }))
    → Joined code room player rooms (commit code rooms r)
commit-Joined code room player rooms (err e) h = refl
commit-Joined code room player rooms (ok new) h =
    (lookup-insert_self code new rooms, (h new refl).0, (h new refl).1)

pub join_room-Joined :
    (code : Text) (u : ℕ) (name : Text) (is_guest : Bool) (now : ℕ) (rooms : Rooms)
    (room : PrivateRoom)
    → lookup code rooms ≡ some room
    → Joined code room
        (guest_player u name is_guest now)
        rooms
        (join_room code u name is_guest now rooms)
unfolding join_room
join_room-Joined code u name is_guest now rooms room found = rw found (
    commit-Joined code room (guest_player u name is_guest now) rooms
      (join_found room u name is_guest now)
      (λ new h. (let a = join_found-Admits room u name is_guest now new h in (a.0, a.4))))

-- A waiting room with two players starts when it is asked to.
pub start_room-starts :
    (code : Text) (match_id : ℕ) (countdown : ℤ) (rooms : Rooms) (room : PrivateRoom)
    → lookup code rooms ≡ some room
    → is_waiting room.status ≡ true
    → 2 ≤ length room.players
    → (r : PrivateRoom) × (start_room code match_id countdown rooms ≡ (ok r, insert code r rooms))
      × (r.match_id ≡ some match_id)
      × (r.status ≡ starting)
      × (r.players ≡ room.players)
unfolding start_room start_found
start_room-starts code match_id countdown rooms room found waits two = (
  record room {
    match_id = some match_id;
    status = starting;
    start_countdown = if ltb_ℤ (pos 0) countdown then countdown else room.start_countdown;
  },
  ground (arith, found, waits, two),
  refl,
  refl,
  refl,
)

-- No room is stored over another.
pub create_room-others :
    (code : Text) (draws : List ℕ) (now : ℕ) (req : PrivateRoomRequest) (rooms : Rooms)
    (room : PrivateRoom)
    → lookup code rooms ≡ some room
    → lookup code (run_call (creates draws now req) rooms) ≡ some room
unfolding run_call
create_room-others code draws now req rooms room found =
    elim (Option-cases (create_room draws now req rooms)) [
      | inl drawing ↦ ground (arith, found)
      | inr ((res, rooms'), e) ↦ elim (create_room_lem draws now req rooms rooms' res e) [
        | inl (_, _, same) ↦ ground (arith, found, same)
        | inr (fresh, _, _, absent, new) ↦ elim (Bool-cases (fresh == code)) [
          | inl hit ↦ absurd (
              let both : lookup fresh rooms ≡ some room =
                ap (λ (c : Text). lookup c rooms) ((text_beq_iff fresh code).0 hit) ∙ found in
              ground (arith, both, absent))
          | inr apart ↦ ground (arith, found, apart, new code)
        ]
      ]
    ]
