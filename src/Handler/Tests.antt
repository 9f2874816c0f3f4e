-- ===== src/Handler/Tests.antt =====
-- The handlers of internal/match/handler.go on small inputs, with integers in the place of `float64`.
use quiz.Prelude.{
  ℕ, ◌+◌, ◌*◌, ◌≡◌, refl, Bool, true, false, none, some, List, [], ◌∷◌, ◌++◌, All, Text, text_beq,
  codes, ℤ, pos, ok, err, lookup, nat_eq, text_eq, pos_part,
}
use mathlib.Core.List.Perm
use quiz.Queue.Search.{IsOrder}
use quiz.Scoring.Whole.{whole, config}
use quiz.Hub.{Hub, new_hub, new_connection, register_connection}
use quiz.Hub.Members.{is_member}
use quiz.Queue.{
  MatchPair, enqueue, find_match, to_player, settle, is_compatible, normalize_category, new_manager,
}
use quiz.Room.{
  PrivateRoom, PrivateRoomRequest, RoomPlayer, starting, new_room, join_room, join_found, user_ids,
}
use quiz.Question.{
  Row, HistoryReplies, check_both_players_history, to_domain, sign_token,
  check_within_match_duplicates,
}
use quiz.Question.Gather.{gather, fetch_curated, add_generated}
use quiz.Question.Pack.{fetch_pack, fetch_questions, drop_duplicates, trim, check_of, cross_match}
use quiz.Match.{QuestionPackItem, LockReply, random_1v1, private_room}
use quiz.Match.Creating.{
  Replies, Plan, match_of, create_random_match, create_private_match, create_match,
}
use quiz.Match.Answering
use quiz.Handler.Types.{
  Server, join_queue, cancel_queue, join_private, Env, Sender, JoinQueuePayload,
  invalid_queue_token,
}
use quiz.Handler.{
  handle_message, handle_join_queue, handle_join_private, send_error, plan_of, question_count_of,
  category_of, starts_match,
}
use quiz.Handler.Invariant.{IsServer}
use quiz.Handler.History.{new_server, Reach, start, next, connects, receives, Reach-IsServer}
use quiz.Handler.Refusals.{handle_message_refused}
use quiz.Handler.Stuck.{IsStuck, failed_start_is_final}
use quiz.Hub.History.{IsValid, Step-IsValid, registers, new_hub-IsValid}
use quiz.Handler.Told.{
  Receives, ReceivesNext, batch, pair_messages, request, paired_players_are_in,
  second_player_starts,
}

abbrev row : ℕ → Row
row n = record {
  question_id = n;
  prompt = [];
  options = [];
  correct_answer = codes "a";
  source = [];
}

abbrev disconnected : HistoryReplies
disconnected = record {
  connected = false;
  is_member = λ user id. none;
  pipeline = λ ids. false;
  seen = λ user id. false;
}

-- The pool has two other rows for each call.
abbrev replies : Bool → Replies
replies created = record {
  scans = λ id. true;
  created = created;
  outside = record {
    cached = none;
    fetch_pool = λ i count. some (row (2 * i) ∷ row (2 * i + 1) ∷ []);
    generator = none;
    history = disconnected;
    visit = λ m. m;
    uuid_text = λ n. n ∷ [];
    hmac_hex = λ key id. key;
    hmac_key = [];
    now = 7;
  };
  range_counts = λ m. m;
  hmac_hex = λ key text. text;
  hmac_key = codes "k";
}

abbrev unlocked : Answering.Replies ℤ
unlocked = record {
  lock = LockReply.held;
  player_state = none;
  questions = none;
  summary = none;
  stored = false;
}

abbrev env : Bool → Env ℤ
env created = record {
  encode = λ msg. 99;
  parse_uuid = λ text. none;
  order = λ m. m;
  position_order = λ m. m;
  queue_token = 20;
  match_id = 8;
  seed_hash = codes "s";
  creating = replies created;
  answering = unlocked;
  now = 7;
}

same-IsOrder : IsOrder (λ m. m)
same-IsOrder m = Perm.refl m

abbrev first : Sender
first = record { user_id = 1; username = codes "u"; is_guest = false }

abbrev second : Sender
second = record { user_id = 2; username = codes "v"; is_guest = false }

abbrev five : JoinQueuePayload
five = record { category = []; question_count = pos 5 }

-- Two users are connected.
abbrev online : Hub
online = register_connection 2 50 (register_connection 1 40 new_hub)

-- One player waits.
abbrev one_waits : Server
one_waits = record {
  queue = record {
    waiting = (10, to_player (request whole config (env true) first five) 10 3) ∷ [];
    bot_wait_sec = pos 10;
  };
  rooms = [];
  hub = online;
}

abbrev pair : MatchPair
pair = record {
  player1 = to_player (request whole config (env true) second five) 20 7;
  player2 = to_player (request whole config (env true) first five) 10 3;
}

paired :
    (enqueue (env true).order 20 7 (request whole config (env true) second five) one_waits.queue).1
    ≡ some pair
unfolding enqueue find_match to_player settle is_compatible normalize_category category_of text_beq
paired = refl

abbrev item : ℕ → QuestionPackItem
item n = record {
  order = pos (n + 1);
  id = n ∷ [];
  prompt = [];
  options = [];
  token = n ∷ codes ":a";
  correct_answer = codes "a";
}

abbrev five_items : List QuestionPackItem
five_items = item 0 ∷ item 1 ∷ item 2 ∷ item 3 ∷ item 4 ∷ []

abbrev random_plan : Plan
random_plan = plan_of (env true) (question_count_of five) 15 (category_of five)

random_made :
    (create_random_match whole (env true).creating random_plan pair).0
    ≡ ok (match_of random_plan random_1v1 true, five_items)
unfolding create_random_match fetch_pack fetch_questions gather fetch_curated add_generated
    cross_match check_both_players_history check_of drop_duplicates check_within_match_duplicates
    to_domain sign_token trim text_beq question_count_of category_of to_player match_of
random_made = refl

online-IsValid : IsValid online
unfolding new_hub new_connection register_connection
online-IsValid =
    Step-IsValid (registers 2 50 (refl, refl))
      (Step-IsValid (registers 1 40 (refl, refl)) new_hub-IsValid)

paired_players_are_in_example :
    let after = handle_join_queue whole config (env true) second (some five) one_waits in
    let match = match_of random_plan random_1v1 true in
    (after.0 ≡ ok tt)
    × (is_member match.id pair.player1.user_id after.1.hub ≡ true)
    × (is_member match.id pair.player2.user_id after.1.hub ≡ true)
    × Receives online after.1.hub pair.player1.user_id
        (pair_messages (env true) pair match five_items)
    × Receives online after.1.hub pair.player2.user_id
        (pair_messages (env true) pair match five_items)
    × (after.1.queue
        ≡ (enqueue
            (env true).order
            20
            7
            (request whole config (env true) second five)
            one_waits.queue).2)
paired_players_are_in_example =
    paired_players_are_in whole config (env true) second five one_waits pair
      (match_of random_plan random_1v1 true) five_items online-IsValid paired random_made

-- A room of its host alone, whom the second player joins.
abbrev code : Text
code = codes "100023"

abbrev room_request : PrivateRoomRequest
room_request = record {
  host_id = 1;
  username = codes "u";
  is_guest = false;
  match_name = codes "quiz";
  max_players = pos 2;
  question_count = pos 5;
  per_question_seconds = pos 15;
  category = [];
}

abbrev waiting_room : PrivateRoom
waiting_room = new_room code 3 room_request

abbrev one_room : Server
one_room = record { queue = new_manager (pos 10); rooms = (code, waiting_room) ∷ []; hub = online }

abbrev second_player : RoomPlayer
second_player = record {
  user_id = 2;
  username = codes "v";
  is_guest = false;
  is_host = false;
  joined_at = 7;
}

abbrev full_room : PrivateRoom
full_room = record waiting_room { players = waiting_room.players ++ second_player ∷ [] }

one_room_there : lookup code one_room.rooms ≡ some waiting_room
unfolding text_beq
one_room_there = refl

joins : (join_room code 2 (codes "v") false 7 one_room.rooms).0 ≡ ok full_room
unfolding join_room join_found new_room text_beq
joins = refl

starts_now : starts_match 2 full_room ≡ true
unfolding starts_match new_room
starts_now = refl

abbrev private_plan : Plan
private_plan =
    plan_of (env true) (pos_part full_room.question_count) (pos_part full_room.per_question_seconds)
      full_room.category

private_made :
    (create_private_match whole (env true).creating private_plan code full_room.players).0
    ≡ ok (match_of private_plan private_room true, five_items)
unfolding create_private_match fetch_pack fetch_questions gather fetch_curated add_generated
    cross_match check_of drop_duplicates check_within_match_duplicates to_domain sign_token trim
    text_beq new_room match_of
private_made = refl

second_player_starts_example :
    let after = (handle_join_private whole config (env true) second (some code) one_room).1 in
    let match = match_of private_plan private_room true in
    ((started : PrivateRoom) × (lookup code after.rooms ≡ some started)
      × (started.match_id ≡ some match.id)
      × (started.status ≡ starting)
      × (started.players ≡ full_room.players))
    × All (λ u. is_member match.id u after.hub ≡ true) (user_ids full_room.players)
    × All
        (λ u. ReceivesNext online after.hub u (batch (env true) match five_items))
        (user_ids full_room.players)
second_player_starts_example =
    second_player_starts whole config (env true) second code one_room waiting_room full_room
      (match_of private_plan private_room true) five_items online-IsValid one_room_there joins
      starts_now private_made

not_made :
    (create_private_match whole
      (env false).creating
      (plan_of
        (env false)
        (pos_part full_room.question_count)
        (pos_part full_room.per_question_seconds)
        full_room.category)
      code
      full_room.players).0
    ≡ err create_match
unfolding create_private_match new_room
not_made = refl

-- The match of the room cannot be created, and another player tries to join.
abbrev third : Sender
third = record { user_id = 3; username = codes "w"; is_guest = false }

abbrev left_room : Server
left_room = (handle_message whole config (env false) second (join_private (some code)) one_room).1

abbrev tried_again : Server
tried_again = (handle_message whole config (env true) third (join_private (some code)) left_room).1

later : Reach whole config left_room tried_again
later = next start (receives (env true) third (join_private (some code)) same-IsOrder)

failed_start_is_final_example : IsStuck code tried_again.rooms
failed_start_is_final_example =
    failed_start_is_final whole config code (env false) second one_room tried_again full_room
      waiting_room create_match one_room_there joins starts_now not_made later

handle_message_refused_example :
    let msg = cancel_queue (some (codes "x")) in
    let after = handle_message whole config (env true) first msg one_room in
    (after ≡ send_error (env true) 1 invalid_queue_token one_room)
    × (after.1.queue ≡ one_room.queue)
    × (after.1.rooms ≡ one_room.rooms)
    × ((m v : ℕ) → is_member m v after.1.hub ≡ is_member m v one_room.hub)
handle_message_refused_example =
    handle_message_refused whole config (env true) first (cancel_queue (some (codes "x"))) one_room
      invalid_queue_token refl

abbrev connected : Server
connected = record (new_server (pos 10)) {
  hub = register_connection 1 50 (new_server (pos 10)).hub;
}

abbrev queued_up : Server
queued_up = (handle_message whole config (env true) first (join_queue (some five)) connected).1

did_queue : Reach whole config (new_server (pos 10)) queued_up
unfolding new_server new_hub new_connection
did_queue =
    next (next start (connects 1 50 (refl, refl)))
      (receives (env true) first (join_queue (some five)) same-IsOrder)

Reach-IsServer_example : IsServer queued_up
Reach-IsServer_example = Reach-IsServer whole config (pos 10) did_queue
