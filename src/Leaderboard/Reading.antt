-- ===== src/Leaderboard/Reading.antt =====
-- The reading side of internal/leaderboard/service.go and helpers.go. What Redis replies is an
-- argument: `none` is an error, a member is the UUID that `uuid.MustParse` reads of it, and a score
-- the integer of the float that is stored.
pub mod Ranks
mod Tests
use quiz.Prelude.{
  ℕ, suc, ◌+◌, ◌-◌, ◌*◌, ◌^◌, Bool, true, false, ◌&&◌, ◌||◌, ◌≤◌, ◌≡◌, length, Option, none, some,
  List, [], ◌∷◌, ◌++◌, if◌then◌else◌, ◌==◌, nat_eq, text_eq, Text, codes, Map, lookup, ℤ, pos,
  negsuc, ◌-ℤ◌, ltb_ℤ, leb_ℤ, ltb, leb, is_empty,
}
use quiz.Scoring.Float.{Float64}
use quiz.Leaderboard.{
  Service, leaderboard_key, private_room_leaderboard_key, meta_key, private_room_meta_key,
}

-- The digits of a number that go on from `n`.
unfoldable pub digits_from : ℕ → Text → Option ℕ
digits_from n [] = some n
digits_from n (c ∷ s) =
    let rest = digits_from (n * 10 + (c - 48)) s in if leb 48 c && leb c 57 then rest else none

abbrev pub positive : Option ℕ → ℤ
positive none = pos 0
positive (some n) = if ltb n (2 ^ 63) then pos n else pos 0

abbrev pub negative : Option ℕ → ℤ
negative none = pos 0
negative (some n) = if leb n (2 ^ 63) then pos 0 -ℤ pos n else pos 0

abbrev pub number : Text → Option ℕ
number [] = none
number (c ∷ s) = digits_from 0 (c ∷ s)

-- `parseInt`: zero for what `strconv.Atoi` refuses.
unfoldable pub parse_int : Text → ℤ
unfolding digits_from
parse_int [] = pos 0
parse_int (c ∷ s) =
    if c == 45
    then negative (number s)
    else if c == 43
    then positive (number s)
    else positive (number (c ∷ s))

abbrev field_of : Map Text Text → Text → Text
field_of fields name = elim (lookup name fields) [ none ↦ [] | some v ↦ v ]

-- The stop of a range is its last index.
pub record Replies : Type 0 where
  pub z_rev_range : Text → ℤ → Option (List (ℕ × ℤ))
  pub h_get_all : Text → Option (Map Text Text)

-- A range from 0 to a stop that is not negative has at most one member more than the stop says.
abbrev pub IsBounded : Replies → Type 0
IsBounded replies =
    (key : Text) (n : ℕ) (members : List (ℕ × ℤ))
    → replies.z_rev_range key (pos n) ≡ some members
    → length members ≤ n + 1

-- `Entry`
pub record Entry (F : Type 0) : Type 0 where
  pub user_id : ℕ
  pub username : Text
  pub score : ℤ
  pub wins : ℤ
  pub games : ℤ
  pub accuracy : F
  pub correct_total : ℤ
  pub question_total : ℤ

-- `ws.LeaderboardEntry`
pub record LeaderboardEntry (F : Type 0) : Type 0 where
  pub rank : ℕ
  pub user_id : ℕ
  pub username : Text
  pub score : ℤ
  pub wins : ℤ
  pub games : ℤ
  pub accuracy : F

-- The limit that `Top` and `GetPrivateRoomLeaderboard` use.
unfoldable pub limit_of : Service → ℤ → ℤ
limit_of s limit = if leb_ℤ limit (pos 0) || ltb_ℤ s.top_n limit then s.top_n else limit

module _ (fl : Float64) (user_text : ℕ → Text) (replies : Replies) where
  open fl use {F}

  -- The entry of a hash that has been read, with the score of the sorted set.
  unfoldable pub entry_of : ℕ → ℤ → Map Text Text → Entry F
  unfolding parse_int
  entry_of user_id score [] = record {
    user_id = user_id;
    username = [];
    score = score;
    wins = pos 0;
    games = pos 0;
    accuracy = fl.zero;
    correct_total = pos 0;
    question_total = pos 0;
  }
  entry_of user_id score (first ∷ more) =
      let data_ = first ∷ more in
      let correct = parse_int (field_of data_ (codes "correct")) in
      let questions = parse_int (field_of data_ (codes "questions")) in
      record {
        user_id = user_id;
        username = field_of data_ (codes "username");
        score = score;
        wins = parse_int (field_of data_ (codes "wins"));
        games = parse_int (field_of data_ (codes "games"));
        accuracy =
            if ltb_ℤ (pos 0) questions
            then fl.div (fl.of_int correct) (fl.of_int questions)
            else fl.zero;
        correct_total = correct;
        question_total = questions;
      }

  abbrev pub with_entry : ℕ → ℤ → Option (Map Text Text) → List (Entry F) → List (Entry F)
  with_entry user_id score none rest = rest
  with_entry user_id score (some fields) rest = entry_of user_id score fields ∷ rest

  -- The loop over the members; one whose hash cannot be read is passed over.
  unfoldable pub collect : (ℕ → Text) → List (ℕ × ℤ) → List (Entry F)
  unfolding entry_of
  collect key [] = []
  collect key ((user_id, score) ∷ members) =
      with_entry user_id score (replies.h_get_all (key user_id)) (collect key members)

  abbrev pub collect_all : (ℕ → Text) → Option (List (ℕ × ℤ)) → Option (List (Entry F))
  collect_all key none = none
  collect_all key (some members) = some (collect key members)

  unfoldable pub top : Service → Text → ℤ → Option (List (Entry F))
  unfolding collect limit_of
  top s window limit =
      collect_all (meta_key user_text s window)
        (replies.z_rev_range (leaderboard_key s window) (limit_of s limit -ℤ pos 1))

  unfoldable pub get_private_room_leaderboard : Service → Text → ℤ → Option (List (Entry F))
  unfolding collect limit_of
  get_private_room_leaderboard s room_code limit =
      collect_all (private_room_meta_key user_text s room_code)
        (replies.z_rev_range (private_room_leaderboard_key s room_code) (limit_of s limit -ℤ pos 1))

  pub snapshot_top : Service → Text → Option (List (Entry F))
  unfolding top
  snapshot_top s window = top s window s.snapshot_top_lim

  -- `toWSEntries`, from the index `i` on.
  unfoldable pub to_ws_entries : ℕ → List (Entry F) → List (LeaderboardEntry F)
  to_ws_entries i [] = []
  to_ws_entries i (e ∷ entries) =
      record {
        rank = i + 1;
        user_id = e.user_id;
        username = e.username;
        score = e.score;
        wins = e.wins;
        games = e.games;
        accuracy = e.accuracy;
      }
      ∷ to_ws_entries (i + 1) entries

  abbrev published : Text → Option (List (Entry F)) → List (Text × List (LeaderboardEntry F))
  published window none = []
  published window (some []) = []
  published window (some (e ∷ entries)) = (window, to_ws_entries 0 (e ∷ entries)) ∷ []

  -- The payloads that `publishUpdate` hands to Redis, window by window.
  pub publish_update : Service → List Text → List (Text × List (LeaderboardEntry F))
  unfolding top to_ws_entries
  publish_update s [] = []
  publish_update s (window ∷ windows) =
      published window (top s window (pos 10)) ++ publish_update s windows
