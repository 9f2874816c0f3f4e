-- ===== src/Room/Joining.antt =====
-- `JoinRoom`, `StartRoom` and `CreateRoom` on every branch.
use quiz.Prelude.{
  ℕ, ◌≤◌, ◌≡◌, ◌≢◌, ◌↔◌, ◌⊎◌, inl, inr, refl, subst, Bool, true, false, none, some, List, [], ◌∷◌,
  ◌++◌, arith, ◌==◌, Text, nat_eq, text_eq, lookup, lookup-All, lookup-insert, lookup-insert_self,
  insert, length, contains, Option-cases, Bool-cases, if◌then◌else◌, ℤ, pos, leb_ℤ, Result, ok, err,
  is_ok, ◌>>=◌, or_fail,
}
use quiz.Room.{
  RoomError, room_not_found, not_accepting, host_cannot_rejoin, cannot_be_started,
  guests_cannot_create, starting, is_waiting, RoomPlayer, PrivateRoom, PrivateRoomRequest, Rooms,
  new_room, store_room, create_room, user_ids, join_found, commit, join_room, start_found,
  start_room, generate_room_code,
}
use quiz.Room.Code.{IsDigits, generate_room_code-fresh}
use quiz.Room.Rules.{
  Entry, IsRegistry, HostFirst, guest_player, join_found-Admits, start_found-Starts,
}

-- The room under `code` has a place for the user.
abbrev pub HasPlace : Text → ℕ → Rooms → PrivateRoom → Type 0
HasPlace code user_id rooms room =
    (lookup code rooms ≡ some room)
    × (is_waiting room.status ≡ true)
    × (leb_ℤ room.max_players (pos (length room.players)) ≡ false)
    × (contains user_id (user_ids room.players) ≡ false)

host_contained : (h : ℕ) (ps : List RoomPlayer) → HostFirst h ps → contains h (user_ids ps) ≡ true
host_contained h [] w = absurd w
host_contained h (p ∷ ps) w = ground arith

commit_ok :
    (code : Text) (rooms : Rooms) (m : PrivateRoom → Result RoomError PrivateRoom) (r : PrivateRoom)
    → (commit code rooms (or_fail (lookup code rooms) room_not_found >>= m)).0 ≡ ok r
    → (room : PrivateRoom) × (lookup code rooms ≡ some room) × (m room ≡ ok r)
commit_ok code rooms m r h = elim (Option-cases (lookup code rooms)) [
  | inl missing ↦ absurd (let h' = rw missing at h in cc)
  | inr (room, found) ↦ (room, found, finish (m room) (rw found at h))
]
  where
    finish : (res : Result RoomError PrivateRoom) → (commit code rooms res).0 ≡ ok r → res ≡ ok r
    finish (ok x) e = e
    finish (err x) e = e

commit_stored :
    (code : Text) (rooms : Rooms) (res : Result RoomError PrivateRoom) (r : PrivateRoom)
    → (commit code rooms res).0 ≡ ok r
    → (commit code rooms res).1 ≡ insert code r rooms
commit_stored code rooms (ok x) r h = ground arith
commit_stored code rooms (err x) r h = absurd (cc)

module _ (code : Text) (user_id : ℕ) (username : Text) (is_guest : Bool) (now : ℕ)
    (rooms : Rooms) where
  -- In a registry that meets the invariant, `JoinRoom` succeeds exactly if the code names a waiting
  -- room with fewer than `max_players` players that the user is not in.
  pub join_room_iff :
      IsRegistry rooms
      → (is_ok (join_room code user_id username is_guest now rooms).0 ≡ true)
        ↔ ((room : PrivateRoom) × HasPlace code user_id rooms room)
  unfolding join_room join_found
  join_room_iff v = elim (Option-cases (lookup code rooms)) [
    | inl missing ↦ (λ h. absurd (ground arith), λ h. absurd (ground arith))
    | inr (room, found) ↦
        let host = (lookup-All Entry code rooms room v found).1.host in
        (
          λ h. (room, (found, ground arith, ground arith, ground arith)),
          λ h. ground (arith, host_contained room.host_id room.players host),
        )
  ]

  -- A successful `JoinRoom` appends the user, as no host, to the players of the room under the code,
  -- and changes nothing else of that room and no other room.
  join_room_ok :
      (r : PrivateRoom)
      → (join_room code user_id username is_guest now rooms).0 ≡ ok r
      → (room : PrivateRoom) × HasPlace code user_id rooms room
        × (r ≡ record room {
          players = room.players ++ guest_player user_id username is_guest now ∷ [];
        })
        × ((j : Text)
            → lookup j (join_room code user_id username is_guest now rooms).1
              ≡ (if code == j then some r else lookup j rooms))
  unfolding join_room
  join_room_ok r h =
      let body = λ (room : PrivateRoom). join_found room user_id username is_guest now in
      let (room, found, e) = commit_ok code rooms body r h in
      let (open_, free, absent, _, shape) =
        join_found-Admits room user_id username is_guest now r e in
      (
        room,
        (found, open_, free, absent),
        shape,
        λ j.
            rw (commit_stored code rooms (or_fail (lookup code rooms) room_not_found >>= body) r h)
              (lookup-insert code j r rooms),
      )

  -- A failed `JoinRoom` changes nothing. In a registry that meets the invariant it never fails by
  -- the last check, that the host joins again.
  join_room_err :
      (e : RoomError)
      → IsRegistry rooms
      → (join_room code user_id username is_guest now rooms).0 ≡ err e
      → ((join_room code user_id username is_guest now rooms).1 ≡ rooms) × (e ≢ host_cannot_rejoin)
  unfolding join_room join_found
  join_room_err e v h = elim (Option-cases (lookup code rooms)) [
    | inl missing ↦ (ground arith, λ k. ground arith)
    | inr (room, found) ↦
        let host = (lookup-All Entry code rooms room v found).1.host in
        (ground arith, λ k. ground (arith, host_contained room.host_id room.players host))
  ]

-- A room is started once: after a successful `StartRoom` the room under the code has the match, at
-- least two players and the status starting; it can neither be started again nor joined, and every
-- other room is as before.
pub start_room_once :
    (code : Text) (match_id : ℕ) (countdown : ℤ) (rooms : Rooms) (r : PrivateRoom)
    → (start_room code match_id countdown rooms).0 ≡ ok r
    → let after = (start_room code match_id countdown rooms).1 in
      (r.match_id ≡ some match_id)
      × (r.status ≡ starting)
      × (2 ≤ length r.players)
      × ((j : Text) → lookup j after ≡ (if code == j then some r else lookup j rooms))
      × ((other : ℕ) (seconds : ℤ)
          → (start_room code other seconds after).0 ≡ err cannot_be_started)
      × ((user_id : ℕ) (username : Text) (is_guest : Bool) (now : ℕ)
          → (join_room code user_id username is_guest now after).0 ≡ err not_accepting)
unfolding start_room start_found join_room join_found
start_room_once code match_id countdown rooms r h =
    let body = λ (room : PrivateRoom). start_found room match_id countdown in
    let (room, found, e) = commit_ok code rooms body r h in
    let (ready, enough, shape) = start_found-Starts room match_id countdown r e in
    let stored =
      commit_stored code rooms (or_fail (lookup code rooms) room_not_found >>= body) r h in
    let self = lookup-insert_self code r rooms in
    (
      ground arith,
      ground arith,
      ground arith,
      λ j. rw stored (lookup-insert code j r rooms),
      λ other seconds. rw (stored, self) (ground arith),
      λ user_id username is_guest now. rw (stored, self) (ground arith),
    )

-- A guest creates no room. Otherwise the room is stored under a code that named none, waiting, with
-- its creator as the only player, and every other code names what it named before.
pub create_room_lem :
    (draws : List ℕ) (now : ℕ) (req : PrivateRoomRequest) (rooms rooms' : Rooms)
    (res : Result RoomError (Text × PrivateRoom))
    → create_room draws now req rooms ≡ some (res, rooms')
    → ((req.is_guest ≡ true) × (res ≡ err guests_cannot_create) × (rooms' ≡ rooms))
      ⊎ ((code : Text) × (req.is_guest ≡ false)
          × (res ≡ ok (code, new_room code now req))
          × (lookup code rooms ≡ none)
          × ((j : Text)
              → lookup j rooms'
                ≡ (if code == j then some (new_room code now req) else lookup j rooms)))
unfolding create_room store_room
create_room_lem draws now req rooms rooms' res h = elim (Bool-cases req.is_guest) [
  | inl guest ↦ inl (guest, ground arith, ground arith)
  | inr user ↦ elim (Option-cases (generate_room_code draws rooms)) [
    | inl drawing ↦ absurd (ground arith)
    | inr (code, e) ↦
        let room = new_room code now req in
        let own : room.room_code ≡ code = unfold new_room in refl in
        let (_, _, _, _, fresh) = generate_room_code-fresh draws rooms code e in
        inr (code, user, ground arith, fresh, λ j. ground (arith, lookup-insert code j room rooms))
  ]
]

-- The code of a new room is six digits.
pub create_room-IsDigits :
    (draws : List ℕ) (now : ℕ) (req : PrivateRoomRequest) (rooms rooms' : Rooms) (code : Text)
    (room : PrivateRoom)
    → create_room draws now req rooms ≡ some (ok (code, room), rooms')
    → IsDigits code
unfolding create_room
create_room-IsDigits draws now req rooms rooms' code room h = elim (Bool-cases req.is_guest) [
  | inl guest ↦ absurd (ground arith)
  | inr user ↦ elim (Option-cases (generate_room_code draws rooms)) [
    | inl drawing ↦ absurd (ground arith)
    | inr (drawn, e) ↦
        let same : drawn ≡ code = ground arith in
        let (_, _, _, digits, _) = generate_room_code-fresh draws rooms drawn e in
        subst IsDigits same digits
  ]
]
