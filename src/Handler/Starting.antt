-- ===== src/Handler/Starting.antt =====
-- Who is in a match after it has been made.
use quiz.Prelude.{
  ℕ, ◌≡◌, refl, sym, ap, ◌∙◌, arith, inl, inr, true, some, List, [], ◌∷◌, All, Text, Result, ok,
  err, Bool-cases, ◌==◌, nat_eq, nat_beq_iff, text_eq, lookup, length, ◌≤◌,
}
use quiz.Hub.{Hub, HubError, join_match, send_to_user}
use quiz.Hub.Members.{HasDistinctUsers, is_member}
use quiz.Hub.Rosters.{is_member-send_to_user, is_member-broadcast_to_match, is_member-join_match}
use quiz.Queue.{MatchPair}
use quiz.Room.{RoomError, PrivateRoom, Rooms, RoomPlayer, is_waiting, user_ids}
use quiz.Room.Others.{Joined}
use quiz.Match.{QuestionPackItem}
use quiz.Match.Creating.{Match}
use quiz.Handler.Types.{Server, Outgoing, Env, of_hub}
use quiz.Handler.{
  join_all, join_pair, send, broadcast_all_of, send_questions, announce_pair, send_room_update,
  announce_room, starts_match, match_found_of,
}

join_all-kept :
    (m : ℕ) (us : List ℕ) (h : Hub)
    → HasDistinctUsers h.matches
    → (v : ℕ) → is_member m v h ≡ true
    → is_member m v (join_all m us h) ≡ true
unfolding join_all
join_all-kept m [] h d v old = old
join_all-kept m (u ∷ us) h d v old =
    let (d', _, kept) = is_member-join_match m u h d in
    join_all-kept m us (join_match m u h) d' v (kept v old)

pub join_all-members :
    (m : ℕ) (us : List ℕ) (h : Hub)
    → HasDistinctUsers h.matches
    → All (λ u. is_member m u (join_all m us h) ≡ true) us
unfolding join_all
join_all-members m [] h d = tt
join_all-members m (u ∷ us) h d =
    let (d', here, _) = is_member-join_match m u h d in
    (join_all-kept m us (join_match m u h) d' u here, join_all-members m us (join_match m u h) d')

pub join_pair-members :
    (m u : ℕ) (pair : MatchPair) (h : Hub)
    → HasDistinctUsers h.matches
    → (is_member m pair.player1.user_id (join_pair m u pair h) ≡ true)
      × (is_member m pair.player2.user_id (join_pair m u pair h) ≡ true)
unfolding join_pair
join_pair-members m u pair h d =
    let p1 = pair.player1.user_id in
    let p2 = pair.player2.user_id in
    let h1 = join_match m u h in
    let (d1, here, _) = is_member-join_match m u h d in
    let (d2, here1, kept1) = is_member-join_match m p1 h1 d1 in
    let (_, here2, kept2) = is_member-join_match m p2 h1 d1 in
    let (_, here3, kept3) = is_member-join_match m p2 (join_match m p1 h1) d2 in
    elim (Bool-cases (p1 == u)) [
      | inl same1 ↦
          let first : is_member m p1 h1 ≡ true =
            ap (λ (x : ℕ). is_member m x h1) ((nat_beq_iff p1 u).0 same1) ∙ here in
          elim (Bool-cases (p2 == u)) [
            | inl same2 ↦
                let both : is_member m p2 h1 ≡ true =
                  ap (λ (x : ℕ). is_member m x h1) ((nat_beq_iff p2 u).0 same2) ∙ here in
                rw (same1, same2) (first, both)
            | inr other2 ↦ rw (same1, other2) (kept2 p1 first, here2)
          ]
      | inr other1 ↦ elim (Bool-cases (p2 == u)) [
        | inl same2 ↦
            let second : is_member m p2 h1 ≡ true =
              ap (λ (x : ℕ). is_member m x h1) ((nat_beq_iff p2 u).0 same2) ∙ here in
            rw (other1, same2) (here1, kept1 p2 second)
        | inr other2 ↦ rw (other1, other2) (kept3 p1 here1, here3)
      ]
    ]

pub of_hub-hub : (s : Server) (p : Result HubError (Unit {0}) × Hub) → (of_hub s p).1.hub ≡ p.1
of_hub-hub s (ok u, h) = refl
of_hub-hub s (err e, h) = refl

module _ {F : Type 0} (env : Env F) where
  send-members :
      (m v u : ℕ) (msg : Outgoing F) (s : Server)
      → is_member m v (send env u msg s).1.hub ≡ is_member m v s.hub
  unfolding send
  send-members m v u msg s =
      ap (is_member m v) (of_hub-hub s (send_to_user u (env.encode msg) s.hub))
      ∙ is_member-send_to_user m v u (env.encode msg) s.hub

  broadcast-members :
      (m v match_id : ℕ) (msg : Outgoing F) (s : Server)
      → is_member m v (broadcast_all_of env match_id msg s).hub ≡ is_member m v s.hub
  unfolding broadcast_all_of
  broadcast-members m v match_id msg s =
      is_member-broadcast_to_match m v match_id (env.encode msg) s.hub

  questions-members :
      (m v match_id : ℕ) (qs : List QuestionPackItem) (s : Server)
      → is_member m v (send_questions env match_id qs s).hub ≡ is_member m v s.hub
  unfolding send_questions
  questions-members m v match_id qs s = broadcast-members m v match_id _ s

  pub announced :
      (u : ℕ) (pair : MatchPair) (match : Match) (qs : List QuestionPackItem) (s : Server) (v : ℕ)
      → is_member match.id v (announce_pair env u pair s (ok (match, qs))).1.hub
        ≡ is_member match.id v (join_pair match.id u pair s.hub)
  unfolding announce_pair
  announced u pair match qs s v =
      let joined : Server = record s { hub = join_pair match.id u pair s.hub } in
      let msg = Outgoing.match_found (match_found_of match pair) in
      questions-members match.id v match.id qs (broadcast_all_of env match.id msg joined)
      ∙ broadcast-members match.id v match.id msg joined

  pub announced-queue :
      (u : ℕ) (pair : MatchPair) (match : Match) (qs : List QuestionPackItem) (s : Server)
      → ((announce_pair env u pair s (ok (match, qs))).0 ≡ ok tt)
        × ((announce_pair env u pair s (ok (match, qs))).1.queue ≡ s.queue)
  unfolding announce_pair send_questions broadcast_all_of
  announced-queue u pair match qs s = (refl, refl)

  pub in_room :
      (m u : ℕ) (qs : List QuestionPackItem) (match : Match) (room : PrivateRoom) (rooms : Rooms)
      (s : Server) (v : ℕ)
      → is_member m v (announce_room env u match qs s (ok room, rooms)).1.hub
        ≡ is_member m v (join_all match.id (user_ids room.players) s.hub)
  unfolding announce_room send_room_update
  in_room m u qs match room rooms s v =
      let joined : Server = record s {
        rooms = rooms;
        hub = join_all match.id (user_ids room.players) s.hub;
      } in
      send-members m v u _ (send_questions env match.id qs joined)
      ∙ questions-members m v match.id qs joined

pub All-transport :
    (m : ℕ) (us : List ℕ) (g h : Hub)
    → ((v : ℕ) → is_member m v g ≡ is_member m v h)
    → All (λ u. is_member m u h ≡ true) us
    → All (λ u. is_member m u g ≡ true) us
All-transport m [] g h e a = tt
All-transport m (u ∷ us) g h e (here, a) = (e u ∙ here, All-transport m us g h e a)

-- A room in which the second player stands is waiting, and can start.
pub ready_room :
    (code : Text) (player : RoomPlayer) (old room : PrivateRoom) (u : ℕ) (rooms : Rooms)
    (p : Result RoomError PrivateRoom × Rooms)
    → Joined code old player rooms p
    → p.0 ≡ ok room
    → starts_match u room ≡ true
    → (lookup code p.1 ≡ some room) × (is_waiting room.status ≡ true) × (2 ≤ length room.players)
unfolding starts_match
ready_room code player old room u rooms (err e, rooms') j h starts = absurd (cc)
ready_room code player old room u rooms (ok new, rooms') (stored, waits, grown) h starts =
    let same : new ≡ room = ground arith in
    (
      stored ∙ ap some same,
      ap (λ (r : PrivateRoom). is_waiting r.status) (sym same ∙ grown) ∙ waits,
      ground arith,
    )
