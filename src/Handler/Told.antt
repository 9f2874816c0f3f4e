-- ===== src/Handler/Told.antt =====
-- What the connections of the players receive when their match has been made.
use mathlib.Core.List.{append_assoc}
use quiz.Prelude.{
  ℕ, ◌+◌, ◌≤◌, ◌≡◌, refl, ap, ◌∙◌, arith, inl, inr, true, some, List, [], ◌∷◌, ◌++◌, map, All, Text,
  ok, Bool-cases, ◌==◌, nat_eq, text_eq, lookup, lookup-insert_self, insert, pos_part, length,
  length-append,
}
use quiz.Scoring.{ScoringConfig}
use quiz.Scoring.Float.{Float64}
use quiz.Hub.{Hub, queue_capacity, broadcast_to_match, join_match, send_to_user}
use quiz.Hub.Members.{is_member}
use quiz.Hub.Rosters.{is_member-broadcast_to_match}
use quiz.Hub.History.{IsValid, Step-IsValid, broadcasts, join_match-hub}
use quiz.Hub.Received.{broadcast-received, send_to_user-keeps}
use quiz.Queue.{MatchPair, MatchmakingRequest, enqueue}
use quiz.Room.{PrivateRoom, RoomPlayer, Rooms, starting, user_ids, join_room}
use quiz.Match.{QuestionPackItem}
use quiz.Match.Creating.{Match, create_random_match, create_private_match}
use quiz.Handler.Types.{Server, JoinQueuePayload, Outgoing, Sender, Env}
use quiz.Handler.{
  join_all, join_pair, send, broadcast_all_of, send_questions, announce_pair, send_room_update,
  room_update_of, announce_room, start_private, handle_join_queue, joined_room, handle_join_private,
  starts_match, queued, plan_of, match_found_of, category_of, question_count_of, question_payload,
}
use quiz.Handler.Invariant.{join_all-IsValid, join_pair-IsValid}
use quiz.Handler.Starting.{
  of_hub-hub, join_all-members, join_pair-members, ready_room, All-transport, announced,
  announced-queue, in_room,
}
use quiz.Handler.Effects.{announce_room-rooms}
use quiz.Room.Rules.{guest_player}
use quiz.Room.Others.{join_room-Joined, start_room-starts}

-- Joining matches leaves the connections as they are.
abbrev IsSame : Hub → Hub → Type 0
IsSame g h = (g.connections ≡ h.connections) × (g.heap ≡ h.heap)

join_match-IsSame : (m u : ℕ) (g h : Hub) → IsSame g h → IsSame (join_match m u g) h
join_match-IsSame m u g h (c, e) = let (c', e') = join_match-hub m u g in (c' ∙ c, e' ∙ e)

join_all-IsSame : (m : ℕ) (us : List ℕ) (g h : Hub) → IsSame g h → IsSame (join_all m us g) h
unfolding join_all
join_all-IsSame m [] g h same = same
join_all-IsSame m (u ∷ us) g h same =
    join_all-IsSame m us (join_match m u g) h (join_match-IsSame m u g h same)

join_pair-IsSame : (m u : ℕ) (pair : MatchPair) (h : Hub) → IsSame (join_pair m u pair h) h
unfolding join_pair
join_pair-IsSame m u pair h =
    let p1 = pair.player1.user_id in
    let p2 = pair.player2.user_id in
    let h1 = join_match m u h in
    let one = join_match-IsSame m u h h (refl, refl) in
    elim (Bool-cases (p1 == u)) [
      | inl same1 ↦ elim (Bool-cases (p2 == u)) [
        | inl same2 ↦ rw (same1, same2) one
        | inr other2 ↦ rw (same1, other2) (join_match-IsSame m p2 h1 h one)
      ]
      | inr other1 ↦
          let two = join_match-IsSame m p1 h1 h one in
          elim (Bool-cases (p2 == u)) [
            | inl same2 ↦ rw (other1, same2) two
            | inr other2 ↦ rw (other1, other2) (join_match-IsSame m p2 (join_match m p1 h1) h two)
          ]
    ]

-- The user's connection, if its queue has a place for all the messages, receives exactly them.
abbrev pub Receives : Hub → Hub → ℕ → List ℕ → Type 0
Receives before after v msgs =
    (a : ℕ)
    → lookup v before.connections ≡ some a
    → length (before.heap a).send_ch + length msgs ≤ queue_capacity
    → (after.heap a).send_ch ≡ (before.heap a).send_ch ++ msgs

-- The user's connection, if its queue has a place, receives the message next.
abbrev pub ReceivesNext : Hub → Hub → ℕ → ℕ → Type 0
ReceivesNext before after v msg =
    (a : ℕ)
    → lookup v before.connections ≡ some a
    → length (before.heap a).send_ch + 1 ≤ queue_capacity
    → (rest : List ℕ) × ((after.heap a).send_ch ≡ (before.heap a).send_ch ++ msg ∷ rest)

-- Two broadcasts to a match, after its players have joined it.
both_received :
    (m msg more : ℕ) (before joined : Hub) (v : ℕ)
    → IsValid joined
    → IsSame joined before
    → is_member m v joined ≡ true
    → Receives before
        (broadcast_to_match m more (broadcast_to_match m msg joined).1).1
        v
        (msg ∷ more ∷ [])
both_received m msg more before joined v valid (conns, heap) within a e room =
    let h1 = (broadcast_to_match m msg joined).1 in
    let old = (before.heap a).send_ch in
    let there : lookup v joined.connections ≡ some a = rw conns e in
    let same : (joined.heap a).send_ch ≡ old = rw heap refl in
    let (got, kept) =
      broadcast-received m msg joined v a valid within there
        (omega (arith, ap length same, room)) in
    let now : (h1.heap a).send_ch ≡ old ++ msg ∷ [] = got ∙ ap (λ l. l ++ msg ∷ []) same in
    let (got2, _) =
      broadcast-received m more h1 v a (Step-IsValid (broadcasts m msg) valid)
        (is_member-broadcast_to_match m v m msg joined ∙ within) (ap (lookup v) kept ∙ there)
        (omega (arith, ap length now, length-append old (msg ∷ []), room)) in
    got2 ∙ ap (λ l. l ++ more ∷ []) now ∙ append_assoc old (msg ∷ []) (more ∷ [])

next_received :
    (m msg u update : ℕ) (before joined : Hub) (v : ℕ)
    → IsValid joined
    → IsSame joined before
    → is_member m v joined ≡ true
    → ReceivesNext before (send_to_user u update (broadcast_to_match m msg joined).1).1 v msg
next_received m msg u update before joined v valid (conns, heap) within a e room =
    let h1 = (broadcast_to_match m msg joined).1 in
    let old = (before.heap a).send_ch in
    let there : lookup v joined.connections ≡ some a = rw conns e in
    let same : (joined.heap a).send_ch ≡ old = rw heap refl in
    let (got, _) =
      broadcast-received m msg joined v a valid within there
        (omega (arith, ap length same, room)) in
    let now : (h1.heap a).send_ch ≡ old ++ msg ∷ [] = got ∙ ap (λ l. l ++ msg ∷ []) same in
    let (rest, later) = send_to_user-keeps u update h1 a in
    (rest, later ∙ ap (λ l. l ++ rest) now ∙ append_assoc old (msg ∷ []) rest)

All-map : {P Q : ℕ → Type 0} (us : List ℕ) → ((u : ℕ) → P u → Q u) → All P us → All Q us
All-map [] f a = tt
All-map (u ∷ us) f (p, a) = (f u p, All-map us f a)

module _ {F : Type 0} (env : Env F) where
  -- The message with the questions of a match.
  abbrev pub batch : Match → List QuestionPackItem → ℕ
  batch match qs = env.encode (Outgoing.question_batch match.id (map question_payload qs) env.now)

  -- What the players of a pair are told.
  abbrev pub pair_messages : MatchPair → Match → List QuestionPackItem → List ℕ
  pair_messages pair match qs =
      env.encode (Outgoing.match_found (match_found_of match pair)) ∷ batch match qs ∷ []

  pair_told :
      (u : ℕ) (pair : MatchPair) (match : Match) (qs : List QuestionPackItem) (s : Server) (v : ℕ)
      → IsValid s.hub
      → is_member match.id v (join_pair match.id u pair s.hub) ≡ true
      → Receives s.hub
          (announce_pair env u pair s (ok (match, qs))).1.hub
          v
          (pair_messages pair match qs)
  unfolding announce_pair send_questions broadcast_all_of
  pair_told u pair match qs s v valid within =
      both_received match.id (env.encode (Outgoing.match_found (match_found_of match pair)))
        (batch match qs) s.hub (join_pair match.id u pair s.hub) v
        (join_pair-IsValid match.id u pair s.hub valid) (join_pair-IsSame match.id u pair s.hub)
        within

  room_told :
      (u : ℕ) (match : Match) (qs : List QuestionPackItem) (s : Server) (room : PrivateRoom)
      (rooms : Rooms) (v : ℕ)
      → IsValid s.hub
      → is_member match.id v (join_all match.id (user_ids room.players) s.hub) ≡ true
      → ReceivesNext s.hub
          (announce_room env u match qs s (ok room, rooms)).1.hub
          v
          (batch match qs)
  unfolding announce_room send_room_update send send_questions broadcast_all_of
  room_told u match qs s room rooms v valid within a e free =
      let us = user_ids room.players in
      let joined : Server = record s { rooms = rooms; hub = join_all match.id us s.hub } in
      let told = send_questions env match.id qs joined in
      let msg = env.encode (Outgoing.private_room_update (room_update_of room)) in
      let (rest, more) =
        next_received match.id (batch match qs) u msg s.hub (join_all match.id us s.hub) v
          (join_all-IsValid match.id us s.hub valid)
          (join_all-IsSame match.id us s.hub s.hub (refl, refl)) within a e free in
      (
        rest,
        ap (λ (h : Hub). (h.heap a).send_ch) (of_hub-hub told (send_to_user u msg told.hub)) ∙ more,
      )

module _ (fl : Float64) (cfg : ScoringConfig fl.F) (env : Env fl.F) where
  abbrev pub request : Sender → JoinQueuePayload → MatchmakingRequest
  request sender req = record {
    user_id = sender.user_id;
    username = sender.username;
    is_guest = sender.is_guest;
    preferred_category = category_of req;
    preferred_difficulty = [];
    bot_ok = true;
  }

  -- While the invariant of the hub holds: if a player who asks to join the queue is paired and the
  -- match can be created, then both players of the pair are in the match, the connection of each, if its queue has two places, receives
  -- exactly the message that the match was found and then its questions, and the queue of players is
  -- the one that the search has left.
  pub paired_players_are_in :
      (sender : Sender) (req : JoinQueuePayload) (s : Server) (pair : MatchPair) (match : Match)
      (qs : List QuestionPackItem)
      → IsValid s.hub
      → (enqueue env.order env.queue_token env.now (request sender req) s.queue).1 ≡ some pair
      → (create_random_match fl env.creating
          (plan_of env (question_count_of req) 15 (category_of req))
          pair).0
        ≡ ok (match, qs)
      → let after = handle_join_queue fl cfg env sender (some req) s in
        (after.0 ≡ ok tt)
        × (is_member match.id pair.player1.user_id after.1.hub ≡ true)
        × (is_member match.id pair.player2.user_id after.1.hub ≡ true)
        × Receives s.hub after.1.hub pair.player1.user_id (pair_messages env pair match qs)
        × Receives s.hub after.1.hub pair.player2.user_id (pair_messages env pair match qs)
        × (after.1.queue
            ≡ (enqueue env.order env.queue_token env.now (request sender req) s.queue).2)
  unfolding handle_join_queue queued
  paired_players_are_in sender req s pair match qs d found made =
      let queue = (enqueue env.order env.queue_token env.now (request sender req) s.queue).2 in
      let s1 : Server = record s { queue = queue } in
      let (first, second) = join_pair-members match.id sender.user_id pair s.hub d.users in
      let (fine, kept) = announced-queue env sender.user_id pair match qs s1 in
      rw (found, made)
        (
          fine,
          announced env sender.user_id pair match qs s1 pair.player1.user_id ∙ first,
          announced env sender.user_id pair match qs s1 pair.player2.user_id ∙ second,
          pair_told env sender.user_id pair match qs s1 pair.player1.user_id d first,
          pair_told env sender.user_id pair match qs s1 pair.player2.user_id d second,
          kept,
        )

  -- While the invariant of the hub holds: if the second player joins a private room and the match can
  -- be created, then the room under that code starts with this match, each player of the room is in the match, and the connection of each,
  -- if its queue has a place, receives the questions of the match next.
  pub second_player_starts :
      (sender : Sender) (code : Text) (s : Server) (old room : PrivateRoom) (match : Match)
      (qs : List QuestionPackItem)
      → IsValid s.hub
      → lookup code s.rooms ≡ some old
      → (join_room code sender.user_id sender.username sender.is_guest env.now s.rooms).0 ≡ ok room
      → starts_match sender.user_id room ≡ true
      → (create_private_match fl env.creating
          (plan_of env
            (pos_part room.question_count)
            (pos_part room.per_question_seconds)
            room.category)
          code
          room.players).0
        ≡ ok (match, qs)
      → let after = (handle_join_private fl cfg env sender (some code) s).1 in
        ((started : PrivateRoom) × (lookup code after.rooms ≡ some started)
          × (started.match_id ≡ some match.id)
          × (started.status ≡ starting)
          × (started.players ≡ room.players))
        × All (λ u. is_member match.id u after.hub ≡ true) (user_ids room.players)
        × All (λ u. ReceivesNext s.hub after.hub u (batch env match qs)) (user_ids room.players)
  unfolding handle_join_private joined_room start_private
  second_player_starts sender code s old room match qs d found joined starts made =
      let rooms =
        (join_room code sender.user_id sender.username sender.is_guest env.now s.rooms).1 in
      let s1 : Server = record s { rooms = rooms } in
      let (stored, waits, two) =
        ready_room code (guest_player sender.user_id sender.username sender.is_guest env.now) old
          room sender.user_id s.rooms
          (join_room code sender.user_id sender.username sender.is_guest env.now s.rooms)
          (join_room-Joined code sender.user_id sender.username sender.is_guest env.now s.rooms old
            found)
          joined starts in
      let (started, e, has_match, is_starting, players) =
        start_room-starts code match.id room.start_countdown rooms room stored waits two in
      let rooms' = insert code started rooms in
      let after = (announce_room env sender.user_id match qs s1 (ok started, rooms')).1 in
      rw (joined, starts, made, e)
        (
          (
            started,
            ap (lookup code)
                  (announce_room-rooms env sender.user_id match qs s1 (ok started, rooms'))
                ∙ lookup-insert_self code started rooms,
            has_match,
            is_starting,
            players,
          ),
          All-transport match.id (user_ids room.players) after.hub
              (join_all match.id (user_ids room.players) s.hub)
              (λ v.
                in_room env match.id sender.user_id qs match started (rooms') s1 v
                ∙ ap
                    (λ (ps : List RoomPlayer).
                      is_member match.id v (join_all match.id (user_ids ps) s.hub))
                    players)
              (join_all-members match.id (user_ids room.players) s.hub d.users),
          All-map (user_ids room.players)
              (λ v within. room_told env sender.user_id match qs s1 started rooms' v d (
                ap
                  (λ (ps : List RoomPlayer).
                    is_member match.id v (join_all match.id (user_ids ps) s.hub))
                  players
                ∙ within))
              (join_all-members match.id (user_ids room.players) s.hub d.users),
        )
