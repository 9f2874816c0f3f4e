-- ===== src/Match/Creating/Tests.antt =====
-- Creating matches with internal/match/service.go on small inputs, with integers in the place of
-- `float64`.
use quiz.Prelude.{
  ℕ, ◌+◌, ◌*◌, ◌≡◌, refl, true, false, none, some, List, [], ◌∷◌, text_beq, codes, ℤ, pos, negsuc,
  ◌-ℤ◌, ok,
}
use quiz.Scoring.Whole.{whole, config}
use quiz.Queue.{WaitingPlayer, MatchPair}
use quiz.Room.{RoomPlayer}
use quiz.Question.{
  Row, HistoryReplies, check_both_players_history, to_domain, sign_token,
  check_within_match_duplicates,
}
use quiz.Question.Gather.{gather, fetch_curated, add_generated}
use quiz.Question.Pack.{fetch_pack, fetch_questions, drop_duplicates, trim, check_of, cross_match}
use quiz.Match.{QuestionPackItem, PlayerState, PlayerStatus, private_room, random_1v1}
use quiz.Match.Answering.{orders}
use quiz.Match.Answering.Submit.{none_yet}
use quiz.Match.Finalize.{fill_missing}
use quiz.Match.Creating.{
  Replies, Plan, initial_state, match_of, create_random_match, create_private_match, to_int16,
}
use quiz.Match.Creating.Items.{ScoredOnce, create_random_match_scored}

abbrev row : ℕ → Row
row n = record {
  question_id = n;
  prompt = [];
  options = [];
  correct_answer = codes "a";
  source = [];
}

abbrev disconnected : HistoryReplies
disconnected = record {
  connected = false;
  is_member = λ user id. none;
  pipeline = λ ids. false;
  seen = λ user id. false;
}

-- The pool has two other rows for each call.
abbrev replies : Replies
replies = record {
  scans = λ id. true;
  created = true;
  outside = record {
    cached = none;
    fetch_pool = λ i count. some (row (2 * i) ∷ row (2 * i + 1) ∷ []);
    generator = none;
    history = disconnected;
    visit = λ m. m;
    uuid_text = λ n. n ∷ [];
    hmac_hex = λ key id. key;
    hmac_key = [];
    now = 7;
  };
  range_counts = λ m. m;
  hmac_hex = λ key text. text;
  hmac_key = codes "k";
}

abbrev plan : Plan
plan = record {
  match_id = 8;
  seed_hash = codes "s";
  question_count = 5;
  per_question_sec = 15;
  category = [];
  now = 7;
}

abbrev waiting_player : ℕ → WaitingPlayer
waiting_player user = record {
  user_id = user;
  username = codes "u";
  is_guest = false;
  preferred_category = [];
  preferred_difficulty = [];
  bot_ok = true;
  queued_at = 0;
  queue_token = user;
}

abbrev pair : MatchPair
pair = record { player1 = waiting_player 1; player2 = waiting_player 2 }

abbrev host : RoomPlayer
host = record { user_id = 1; username = codes "u"; is_guest = false; is_host = true; joined_at = 0 }

abbrev item : ℕ → QuestionPackItem
item n = record {
  order = pos (n + 1);
  id = n ∷ [];
  prompt = [];
  options = [];
  token = n ∷ codes ":a";
  correct_answer = codes "a";
}

abbrev five_items : List QuestionPackItem
five_items = item 0 ∷ item 1 ∷ item 2 ∷ item 3 ∷ item 4 ∷ []

created :
    (create_random_match whole replies plan pair).0 ≡ ok (match_of plan random_1v1 true, five_items)
unfolding create_random_match fetch_pack fetch_questions gather fetch_curated add_generated
    cross_match check_both_players_history check_of drop_duplicates check_within_match_duplicates
    to_domain sign_token trim text_beq
created = refl

created_private :
    (create_private_match whole replies plan (codes "100023") (host ∷ [])).0
    ≡ ok (match_of plan private_room true, five_items)
unfolding create_private_match fetch_pack fetch_questions gather fetch_curated add_generated
    cross_match check_of drop_duplicates check_within_match_duplicates to_domain sign_token trim
    text_beq
created_private = refl

abbrev player : PlayerState ℤ
player = record {
  match_id = 8;
  user_id = 1;
  is_guest = false;
  username = codes "u";
  joined_at = 7;
  left_at = none;
  final_score = none;
  status = PlayerStatus.queued;
  accuracy = none;
  streak_bonus_pct = none;
  answers = [];
}

starts : initial_state whole plan (1, false, codes "u") ≡ player
unfolding initial_state
starts = refl

create_random_match_scored_example :
    ScoredOnce five_items 5
      (fill_missing (orders player.answers) (λ i. 9) 0 five_items player.answers)
create_random_match_scored_example =
    create_random_match_scored whole config replies plan pair (match_of plan random_1v1 true)
      five_items (λ i. 9) player player refl created refl none_yet

-- A timeout of 40020 seconds does not fit.
wraps : to_int16 40_020 ≡ negsuc 25_515
unfolding to_int16 ◌-ℤ◌
wraps = refl
