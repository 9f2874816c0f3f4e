-- ===== src/Handler/Stuck.antt =====
-- The room whose match could not be created: it waits for ever.
use quiz.Prelude.{
  ℕ, ◌≤◌, ◌≡◌, sym, ap, ◌∙◌, subst, arith, inl, inr, true, false, some, [], ◌∷◌, Text, Result, ok,
  err, Bool-cases, ◌==◌, nat_eq, text_eq, text_beq_iff, lookup, length, length-append, pos_part,
}
use quiz.Scoring.{ScoringConfig}
use quiz.Scoring.Float.{Float64}
use quiz.Room.{PrivateRoom, RoomPlayer, RoomError, Rooms, is_waiting, join_room}
use quiz.Room.Rules.{guest_player}
use quiz.Room.Others.{Joined, join_room-other, join_room-Joined, create_room-others}
use quiz.Match.Creating.{create_private_match, CreateError}
use quiz.Handler.Types.{Server, Sender, Message, join_private, Env}
use quiz.Handler.{joined_room, handle_join_private, handle_message, starts_match, plan_of}
use quiz.Handler.Effects.{
  joined_room-rooms, joined_room-other, handle_message-rooms, finalize-rooms, failed_start-rooms,
}
use quiz.Handler.History.{
  Step, connects, disconnects, writes, receives, creates_room, finalizes, announces, Reach, start,
  next,
}

-- The room under `code` waits, with two players or more.
abbrev pub IsStuck : Text → Rooms → Type 0
IsStuck code rooms =
    (room : PrivateRoom) × (lookup code rooms ≡ some room)
    × (is_waiting room.status ≡ true)
    × (2 ≤ length room.players)

same_lookup :
    (code : Text) (rooms rooms' : Rooms)
    → lookup code rooms' ≡ lookup code rooms
    → IsStuck code rooms
    → IsStuck code rooms'
same_lookup code rooms rooms' e (room, found, waits, two) = (room, e ∙ found, waits, two)

crowded : (u : ℕ) (room : PrivateRoom) → 3 ≤ length room.players → starts_match u room ≡ false
unfolding starts_match
crowded u room three = ground arith

left_waiting :
    (code : Text) (player : RoomPlayer) (old room : PrivateRoom) (u : ℕ) (rooms : Rooms)
    (p : Result RoomError PrivateRoom × Rooms)
    → Joined code old player rooms p
    → p.0 ≡ ok room
    → starts_match u room ≡ true
    → IsStuck code p.1
unfolding starts_match
left_waiting code player old room u rooms (err e, rooms') j h starts = absurd (cc)
left_waiting code player old room u rooms (ok new, rooms') (stored, waits, grown) h starts =
    let same : new ≡ room = ground arith in
    (
      new,
      stored,
      ap (λ (r : PrivateRoom). is_waiting r.status) grown ∙ waits,
      ground (arith, ap (λ (r : PrivateRoom). length r.players) same),
    )

module _ (fl : Float64) (cfg : ScoringConfig fl.F) (env : Env fl.F) where
  Joined-IsStuck :
      (code : Text) (player : RoomPlayer) (room : PrivateRoom) (u : ℕ) (s : Server)
      (p : Result RoomError PrivateRoom × Rooms)
      → Joined code room player s.rooms p
      → IsStuck code s.rooms
      → lookup code s.rooms ≡ some room
      → 2 ≤ length room.players
      → IsStuck code (joined_room fl cfg env u code (record s { rooms = p.1 }) p.0).1.rooms
  Joined-IsStuck code player room u s (err e, rooms) same k found two =
      subst (IsStuck code)
        (sym same
          ∙ sym (
              joined_room-rooms fl cfg env u code (record s { rooms = rooms }) (err e)
                (λ r h. absurd (cc))))
        k
  Joined-IsStuck code player room u s (ok new, rooms) (stored, waits, grown) k found two =
      let more = length-append room.players (player ∷ []) in
      let three : 3 ≤ length new.players =
        omega (arith, two, more, ap (λ (r : PrivateRoom). length r.players) grown) in
      let waits' : is_waiting new.status ≡ true =
        ap (λ (r : PrivateRoom). is_waiting r.status) grown ∙ waits in
      subst (IsStuck code)
        (sym (
          joined_room-rooms fl cfg env u code (record s { rooms = rooms }) (ok new)
            (λ r h.
              (let same : new ≡ r = ground arith in
                ap (starts_match u) (sym same) ∙ crowded u new three))))
        (new, stored, waits', omega (arith, three))

  join-IsStuck :
      (code other : Text) (sender : Sender) (s : Server)
      → IsStuck code s.rooms
      → IsStuck code (handle_join_private fl cfg env sender (some other) s).1.rooms
  unfolding handle_join_private
  join-IsStuck code other sender s k = elim (Bool-cases (other == code)) [
    | inr apart ↦
        same_lookup code s.rooms _
          (joined_room-other fl cfg env sender.user_id code other
              (record s {
                rooms =
                    (join_room other sender.user_id sender.username sender.is_guest env.now
                      s.rooms).1;
              })
              (join_room other sender.user_id sender.username sender.is_guest env.now s.rooms).0
              apart
            ∙ join_room-other code other sender.user_id sender.username sender.is_guest env.now
                s.rooms apart)
          k
    | inl same ↦
        let (room, found, waits, two) = k in
        subst
          (λ (c : Text). IsStuck code (handle_join_private fl cfg env sender (some c) s).1.rooms)
          (sym ((text_beq_iff other code).0 same))
          (Joined-IsStuck code (guest_player sender.user_id sender.username sender.is_guest env.now)
            room sender.user_id s
            (join_room code sender.user_id sender.username sender.is_guest env.now s.rooms)
            (join_room-Joined code sender.user_id sender.username sender.is_guest env.now s.rooms
              room found)
            k found two)
  ]

  message-IsStuck :
      (code : Text) (sender : Sender) (msg : Message) (s : Server)
      → IsStuck code s.rooms
      → IsStuck code (handle_message fl cfg env sender msg s).1.rooms
  message-IsStuck code sender (join_private (some other)) s k =
      unfold handle_message in join-IsStuck code other sender s k
  message-IsStuck code sender msg s k =
      subst (IsStuck code) (sym (handle_message-rooms fl cfg env sender msg s (λ j. j))) k

module _ (fl : Float64) (cfg : ScoringConfig fl.F) (code : Text) where
  Step-IsStuck : {s t : Server} → Step fl cfg s t → IsStuck code s.rooms → IsStuck code t.rooms
  Step-IsStuck (connects u conn fresh) k = k
  Step-IsStuck (disconnects u) k = k
  Step-IsStuck (writes conn) k = k
  Step-IsStuck {s} (receives env sender msg perm) k = message-IsStuck fl cfg env code sender msg s k
  Step-IsStuck {s} (creates_room draws now req) (room, found, waits, two) =
      (room, create_room-others code draws now req s.rooms room found, waits, two)
  Step-IsStuck {s} (finalizes env match_id replies clocks) k =
      subst (IsStuck code) (sym (finalize-rooms fl cfg env match_id replies clocks s)) k
  Step-IsStuck (announces conns msg order) k = k

  Reach-IsStuck : {s t : Server} → Reach fl cfg s t → IsStuck code s.rooms → IsStuck code t.rooms
  Reach-IsStuck start k = k
  Reach-IsStuck (next r step) k = Step-IsStuck step (Reach-IsStuck r k)

  -- If the second player of a private room has joined and the match cannot be created, then the room
  -- never starts: after any further events, whoever asks to join, it still waits with two players or
  -- more, though a later creation of the match might succeed.
  pub failed_start_is_final :
      (env : Env fl.F) (sender : Sender) (s t : Server) (room old : PrivateRoom) (e : CreateError)
      → lookup code s.rooms ≡ some old
      → (join_room code sender.user_id sender.username sender.is_guest env.now s.rooms).0 ≡ ok room
      → starts_match sender.user_id room ≡ true
      → (create_private_match fl env.creating
          (plan_of env
            (pos_part room.question_count)
            (pos_part room.per_question_seconds)
            room.category)
          code
          room.players).0
        ≡ err e
      → Reach fl cfg (handle_message fl cfg env sender (join_private (some code)) s).1 t
      → IsStuck code t.rooms
  unfolding handle_message
  failed_start_is_final env sender s t room old e found joined starts fails r = Reach-IsStuck r (
      subst (IsStuck code)
        (sym (failed_start-rooms fl cfg env sender code s room e joined starts fails))
        (left_waiting code (guest_player sender.user_id sender.username sender.is_guest env.now) old
          room sender.user_id s.rooms
          (join_room code sender.user_id sender.username sender.is_guest env.now s.rooms)
          (join_room-Joined code sender.user_id sender.username sender.is_guest env.now s.rooms old
            found)
          joined starts))
