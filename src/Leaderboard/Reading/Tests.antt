-- ===== src/Leaderboard/Reading/Tests.antt =====
-- Reading a leaderboard of internal/leaderboard/service.go, with integers in the place of `float64`.
use quiz.Prelude.{
  ℕ, ◌≡◌, refl, arith, false, none, some, List, [], ◌∷◌, map, Text, codes, text_beq, ℤ, pos, negsuc,
  ◌-ℤ◌, ◌≤ℤ◌, leb_ℤ, length,
}
use quiz.Scoring.Whole.{whole}
use quiz.Leaderboard.{Service, leaderboard_key}
use quiz.Leaderboard.Reading.{
  Replies, IsBounded, Entry, parse_int, digits_from, limit_of, entry_of, collect, top,
  get_private_room_leaderboard, snapshot_top, to_ws_entries, publish_update,
}
use quiz.Leaderboard.Reading.Ranks.{IsLeft, IsRanked, place, top-IsRanked}

abbrev user_text : ℕ → Text
user_text n = n ∷ []

-- Two members for any range; the hashes of the users have one field.
abbrev replies : Replies
replies = record {
  z_rev_range = λ key stop. some ((4, pos 90) ∷ (5, pos 70) ∷ []);
  h_get_all = λ key. some ((codes "wins", codes "3") ∷ []);
}

abbrev two_at_most : Replies
two_at_most = record replies {
  z_rev_range = λ key stop. elim stop [
    | pos n ↦ elim n [
      | ℕ.zero ↦ some ((4, pos 90) ∷ [])
      | ℕ.suc m ↦ some ((4, pos 90) ∷ (5, pos 70) ∷ [])
    ]
    | negsuc n ↦ none
  ];
}

two_at_most-IsBounded : IsBounded two_at_most
two_at_most-IsBounded key ℕ.zero members h = ground arith
two_at_most-IsBounded key (ℕ.suc m) members h = ground arith

abbrev service : Service
service = record {
  top_n = pos 50;
  pubsub_channel = codes "lb:updates";
  windows = codes "daily" ∷ [];
  entry_ttl = pos 0;
  prefix = codes "lb";
  snapshot_top_lim = pos 100;
}

abbrev entry : ℕ → ℤ → Entry ℤ
entry n score = record {
  user_id = n;
  username = [];
  score = score;
  wins = pos 3;
  games = pos 0;
  accuracy = pos 0;
  correct_total = pos 0;
  question_total = pos 0;
}

abbrev two_entries : List (Entry ℤ)
two_entries = entry 4 (pos 90) ∷ entry 5 (pos 70) ∷ []

shows : top whole user_text two_at_most service (codes "daily") (pos 10) ≡ some two_entries
unfolding top collect entry_of limit_of parse_int digits_from ◌-ℤ◌ text_beq
shows = refl

top-IsRanked_example :
    (pos (length two_entries) ≤ℤ service.top_n)
    × (leb_ℤ (pos 10) (pos 0) ≡ false → pos (length two_entries) ≤ℤ pos 10)
    × ((members : List (ℕ × ℤ)) × (two_at_most.z_rev_range
            (leaderboard_key service (codes "daily"))
            (limit_of service (pos 10) -ℤ pos 1)
          ≡ some members)
        × IsLeft (map (place whole user_text two_at_most) two_entries) members)
    × IsRanked 1 (to_ws_entries whole user_text two_at_most 0 two_entries)
top-IsRanked_example =
    top-IsRanked whole user_text two_at_most service (codes "daily") (pos 10) two_entries
      two_at_most-IsBounded refl shows

-- The snapshot asks for a hundred entries and gets the fifty of `topN`.
cut : limit_of service service.snapshot_top_lim ≡ pos 50
unfolding limit_of
cut = refl

same_snapshot : snapshot_top whole user_text replies service [] ≡ some two_entries
unfolding snapshot_top top collect entry_of limit_of parse_int digits_from text_beq
same_snapshot = refl

room_shows :
    get_private_room_leaderboard whole user_text replies service (codes "100023") (pos 0)
    ≡ some two_entries
unfolding get_private_room_leaderboard collect entry_of limit_of parse_int digits_from text_beq
room_shows = refl

one_update :
    publish_update whole user_text replies service (codes "daily" ∷ [])
    ≡ (codes "daily", to_ws_entries whole user_text replies 0 two_entries) ∷ []
unfolding publish_update top collect entry_of limit_of parse_int digits_from text_beq to_ws_entries
one_update = refl

signs : parse_int (codes "-12") ≡ negsuc 11
unfolding parse_int digits_from ◌-ℤ◌
signs = refl
