-- ===== src/Leaderboard/Http/Tests.antt =====
-- The leaderboards over HTTP on two members in Redis and one stored snapshot.
use quiz.Prelude.{
  ℕ, ◌≡◌, refl, arith, true, Option, none, some, [], ◌∷◌, Text, codes, text_beq, ℤ, pos, negsuc,
  ◌-ℤ◌, has_prefix, trim_prefix, trim_slash,
}
use quiz.Scoring.Whole.{whole}
use quiz.Leaderboard.{Service}
use quiz.Leaderboard.Reading.{
  Replies, IsBounded, LeaderboardEntry, parse_int, digits_from, limit_of, entry_of, collect, top,
  get_private_room_leaderboard, to_ws_entries,
}
use quiz.Leaderboard.Http.{
  Request, Response, Snapshots, unknown_window, room_code_required, window_board, room_board, redis,
  snapshot, is_valid_window, limit_param, snapshot_fallback, handle_get_private_room, handle_get,
}
use quiz.Leaderboard.Http.Bounds.{IsLimit, IsAnswer, handle_get-IsAnswer}

abbrev user_text : ℕ → Text
user_text n = n ∷ []

abbrev replies : Replies
replies = record {
  z_rev_range = λ key stop. elim stop [
    | pos n ↦ elim n [
      | ℕ.zero ↦ some ((4, pos 90) ∷ [])
      | ℕ.suc m ↦ some ((4, pos 90) ∷ (5, pos 70) ∷ [])
    ]
    | negsuc n ↦ none
  ];
  h_get_all = λ key. some ((codes "wins", codes "3") ∷ []);
}

replies-IsBounded : IsBounded replies
replies-IsBounded key ℕ.zero members h = ground arith
replies-IsBounded key (ℕ.suc m) members h = ground arith

abbrev service : Service
service = record {
  top_n = pos 50;
  pubsub_channel = codes "lb:updates";
  windows = codes "daily" ∷ [];
  entry_ttl = pos 0;
  prefix = codes "lb";
  snapshot_top_lim = pos 100;
}

abbrev entry : ℕ → ℕ → ℤ → LeaderboardEntry ℤ
entry rank n score = record {
  rank = rank;
  user_id = n;
  username = [];
  score = score;
  wins = pos 3;
  games = pos 0;
  accuracy = pos 0;
}

-- The payload is the number of the user whose entry is repeated.
abbrev snapshots : Snapshots ℤ ℕ
snapshots = record {
  list_recent_snapshots = λ window n. some (7 ∷ []);
  unmarshal = λ n. some (entry 1 n (pos 5) ∷ entry 2 n (pos 4) ∷ entry 3 n (pos 3) ∷ []);
}

abbrev request : Text → Text → Request
request path limit = record { is_get = true; path = path; limit = limit }

abbrev answer : Option Service → Text → Text → Response ℤ
answer svc path limit = handle_get whole user_text replies svc (some snapshots) (request path limit)

live :
    answer (some service) (codes "/v1/leaderboards/daily/") (codes "1")
    ≡ window_board (codes "daily") (entry 1 4 (pos 90) ∷ []) redis
unfolding handle_get has_prefix trim_prefix trim_slash is_valid_window limit_param parse_int
    digits_from top collect entry_of limit_of to_ws_entries text_beq ◌-ℤ◌
live = refl

stored :
    answer none (codes "/v1/leaderboards/weekly") (codes "2")
    ≡ window_board (codes "weekly") (entry 1 7 (pos 5) ∷ entry 2 7 (pos 4) ∷ []) snapshot
unfolding handle_get has_prefix trim_prefix trim_slash is_valid_window limit_param parse_int
    digits_from snapshot_fallback text_beq
stored = refl

room :
    answer (some service) (codes "/v1/leaderboards/private/100023") []
    ≡ room_board (codes "100023") (entry 1 4 (pos 90) ∷ entry 2 5 (pos 70) ∷ [])
unfolding handle_get handle_get_private_room has_prefix trim_prefix trim_slash limit_param parse_int
    digits_from get_private_room_leaderboard collect entry_of limit_of to_ws_entries text_beq ◌-ℤ◌
room = refl

-- Without a code a room path is not one of the windows.
no_code : answer (some service) (codes "/v1/leaderboards/private/") [] ≡ unknown_window
unfolding handle_get has_prefix trim_prefix trim_slash is_valid_window text_beq
no_code = refl

two_slashes : answer (some service) (codes "/v1/leaderboards/private//") [] ≡ room_code_required
unfolding handle_get handle_get_private_room has_prefix trim_prefix trim_slash text_beq
two_slashes = refl

too_many : limit_param (codes "101") ≡ pos 10
unfolding limit_param parse_int digits_from text_beq
too_many = refl

signed : limit_param (codes "+100") ≡ pos 100
unfolding limit_param parse_int digits_from text_beq
signed = refl

handle_get-IsAnswer_example :
    IsLimit (limit_param (codes "1"))
    × IsAnswer
        (limit_param (codes "1"))
        true
        (answer (some service) (codes "/v1/leaderboards/daily/") (codes "1"))
handle_get-IsAnswer_example =
    handle_get-IsAnswer whole user_text replies replies-IsBounded (some service) (some snapshots)
      (request (codes "/v1/leaderboards/daily/") (codes "1")) refl
