-- ===== src/Room/Rules.antt =====
-- What holds of one room, and what a successful `JoinRoom` or `StartRoom` has checked and done.
use quiz.Prelude.{
  ℕ, ◌≤◌, ◌≡◌, ◌≢◌, ◌⊎◌, inl, inr, refl, Bool, true, false, Option, none, some, List, [], ◌∷◌, ◌++◌,
  arith, All, All-append, Text, nat_eq, text_eq, length, length-append, contains, Distinct, is_some,
  if◌then◌else◌, ℤ, pos, ◌≤ℤ◌, leb_ℤ, ltb_ℤ, ok,
}
use quiz.Room.{
  RoomStatus, waiting, starting, active, is_waiting, RoomPlayer, PrivateRoom, PrivateRoomRequest,
  Rooms, new_room, user_ids, join_found, start_found,
}

-- The host stands first, is no guest, and is the only host.
abbrev pub HostFirst : ℕ → List RoomPlayer → Type 0
HostFirst h [] = ⊥
HostFirst h (p ∷ ps) =
    (p.user_id ≡ h) × (p.is_host ≡ true) × (p.is_guest ≡ false) × All (λ q. q.is_host ≡ false) ps

-- A waiting room has no match yet; a starting one has its match and two players; no room is active.
abbrev Progress : RoomStatus → Option ℕ → ℕ → Type 0
Progress waiting match_id n = match_id ≡ none
Progress starting match_id n = (is_some match_id ≡ true) × (2 ≤ n)
Progress active match_id n = ⊥

pub record IsRoom (room : PrivateRoom) : Type 0 where
  pub host : HostFirst room.host_id room.players
  pub distinct : Distinct (user_ids room.players)
  pub capacity : (length room.players ≡ 1) ⊎ (pos (length room.players) ≤ℤ room.max_players)
  pub progress : Progress room.status room.match_id (length room.players)

abbrev pub Entry : Text × PrivateRoom → Type 0
Entry (code, room) = (room.room_code ≡ code) × IsRoom room

abbrev pub IsRegistry : Rooms → Type 0
IsRegistry rooms = All Entry rooms

pub new_room-IsRoom :
    (code : Text) (now : ℕ) (req : PrivateRoomRequest) → IsRoom (new_room code now req)
unfolding new_room
new_room-IsRoom code now req = record {
  host = (refl, refl, refl, tt);
  distinct = (refl, tt);
  capacity = inl refl;
  progress = refl;
}

contains-append :
    (a : ℕ) (ps : List RoomPlayer) (q : RoomPlayer)
    → contains a (user_ids ps) ≡ false
    → q.user_id ≢ a
    → contains a (user_ids (ps ++ q ∷ [])) ≡ false
contains-append a [] q h ne = ground arith
contains-append a (p ∷ ps) q h ne = ground (arith, contains-append a ps q)

Distinct-append :
    (ps : List RoomPlayer) (q : RoomPlayer)
    → Distinct (user_ids ps)
    → contains q.user_id (user_ids ps) ≡ false
    → Distinct (user_ids (ps ++ q ∷ []))
Distinct-append [] q d h = (refl, tt)
Distinct-append (p ∷ ps) q d h = (
  contains-append p.user_id ps q d.0 (λ e. ground arith),
  Distinct-append ps q d.1 (ground arith),
)

HostFirst-append :
    (h : ℕ) (ps : List RoomPlayer) (q : RoomPlayer)
    → q.is_host ≡ false
    → HostFirst h ps
    → HostFirst h (ps ++ q ∷ [])
HostFirst-append h [] q e w = absurd w
HostFirst-append h (p ∷ ps) q e w =
    (w.0, w.1, w.2, All-append (λ r. r.is_host ≡ false) ps (q ∷ []) w.3 (e, tt))

-- What a successful `JoinRoom` has checked, and the room that it leaves.
abbrev Admits : PrivateRoom → RoomPlayer → PrivateRoom → Type 0
Admits room player r =
    (is_waiting room.status ≡ true)
    × (leb_ℤ room.max_players (pos (length room.players)) ≡ false)
    × (contains player.user_id (user_ids room.players) ≡ false)
    × (player.user_id ≢ room.host_id)
    × (r ≡ record room { players = room.players ++ player ∷ [] })

abbrev pub guest_player : ℕ → Text → Bool → ℕ → RoomPlayer
guest_player user_id username is_guest now = record {
  user_id = user_id;
  username = username;
  is_guest = is_guest;
  is_host = false;
  joined_at = now;
}

pub join_found-Admits :
    (room : PrivateRoom) (user_id : ℕ) (username : Text) (is_guest : Bool) (now : ℕ)
    (r : PrivateRoom)
    → join_found room user_id username is_guest now ≡ ok r
    → Admits room (guest_player user_id username is_guest now) r
unfolding join_found
join_found-Admits room user_id username is_guest now r h =
    (ground arith, ground arith, ground arith, ground arith, ground arith)

Progress-append :
    (status : RoomStatus) (match_id : Option ℕ) (n m : ℕ)
    → n ≤ m
    → Progress status match_id n
    → Progress status match_id m
Progress-append waiting match_id n m le p = p
Progress-append starting match_id n m le p = (p.0, omega arith)
Progress-append active match_id n m le p = p

pub Admits-IsRoom :
    (room : PrivateRoom) (player : RoomPlayer) (r : PrivateRoom)
    → player.is_host ≡ false
    → Admits room player r
    → IsRoom room
    → IsRoom r
Admits-IsRoom room player r guest a v = rw a.4 (record {
  host = HostFirst-append room.host_id room.players player guest v.host;
  distinct = Distinct-append room.players player v.distinct a.2;
  capacity = inr (ground (arith, length-append room.players (player ∷ [])));
  progress =
      Progress-append room.status room.match_id _ _
        (omega (arith, length-append room.players (player ∷ []))) v.progress;
})

-- What a successful `StartRoom` has checked, and the room that it leaves.
abbrev Starts : PrivateRoom → ℕ → ℤ → PrivateRoom → Type 0
Starts room match_id countdown r =
    (is_waiting room.status ≡ true)
    × (2 ≤ length room.players)
    × (r ≡ record room {
      match_id = some match_id;
      status = starting;
      start_countdown = if ltb_ℤ (pos 0) countdown then countdown else room.start_countdown;
    })

pub start_found-Starts :
    (room : PrivateRoom) (match_id : ℕ) (countdown : ℤ) (r : PrivateRoom)
    → start_found room match_id countdown ≡ ok r
    → Starts room match_id countdown r
unfolding start_found
start_found-Starts room match_id countdown r h = (ground arith, ground arith, ground arith)

pub Starts-IsRoom :
    (room : PrivateRoom) (match_id : ℕ) (countdown : ℤ) (r : PrivateRoom)
    → Starts room match_id countdown r
    → IsRoom room
    → IsRoom r
Starts-IsRoom room match_id countdown r s v =
    rw s.2 (record {
      host = v.host;
      distinct = v.distinct;
      capacity = v.capacity;
      progress = (refl, s.1);
    })
