-- ===== src/Room/Race.antt =====
-- `CreateRoom` gives up the mutex between `generateRoomCode` and the write to the map.
use quiz.Prelude.{
  ℕ, ◌≡◌, ◌≢◌, refl, some, List, arith, ◌==◌, Text, text_eq, lookup, lookup-All, lookup-insert,
  insert, beq_self, text_beq_iff, Bool-cases, inl, inr,
}
use quiz.Room.{PrivateRoomRequest, Rooms, new_room, store_room, generate_room_code}
use quiz.Room.Rules.{Entry, IsRegistry}

new_room-fields :
    (code : Text) (now : ℕ) (req : PrivateRoomRequest)
    → ((new_room code now req).room_code ≡ code) × ((new_room code now req).host_id ≡ req.host_id)
unfolding new_room
new_room-fields code now req = (refl, refl)

-- In a registry that meets the invariant, two different users find the same code free before either
-- stores its room: after both writes the code names the second room, and the first user's room is
-- under no code at all.
pub create_race :
    (draws1 draws2 : List ℕ) (now1 now2 : ℕ) (req1 req2 : PrivateRoomRequest) (rooms : Rooms)
    (code : Text)
    → IsRegistry rooms
    → generate_room_code draws1 rooms ≡ some code
    → generate_room_code draws2 rooms ≡ some code
    → req1.host_id ≢ req2.host_id
    → let after =
        store_room (new_room code now2 req2) (store_room (new_room code now1 req1) rooms) in
      (lookup code after ≡ some (new_room code now2 req2))
      × ((j : Text) → lookup j after ≢ some (new_room code now1 req1))
unfolding store_room
create_race draws1 draws2 now1 now2 req1 req2 rooms code v e1 e2 ne =
    let room1 = new_room code now1 req1 in
    let room2 = new_room code now2 req2 in
    let f1 = new_room-fields code now1 req1 in
    let f2 = new_room-fields code now2 req2 in
    (
      ground (
        arith,
        lookup-insert room2.room_code code room2 (insert room1.room_code room1 rooms),
        beq_self code,
      ),
      λ j h. elim (Bool-cases (code == j)) [
        | inl same ↦
            ground
              (arith, lookup-insert room2.room_code j room2 (insert room1.room_code room1 rooms))
        | inr other ↦
            let old : lookup j rooms ≡ some room1 = ground (
              arith,
              lookup-insert room2.room_code j room2 (insert room1.room_code room1 rooms),
              lookup-insert room1.room_code j room1 rooms,
            ) in
            let at = (lookup-All Entry j rooms room1 v old).0 in ground (arith, text_beq_iff code j)
      ],
    )
