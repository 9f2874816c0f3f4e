-- ===== src/Leaderboard/Http.antt =====
-- internal/leaderboard/http.go: the leaderboards over HTTP. The rows of Postgres and the JSON of
-- their entries are arguments, `none` a failure, and so are the service and the queries, which may
-- be nil. A response is its status with what its body shows; its time and prose are left out.
pub mod Bounds
mod Tests
use quiz.Prelude.{
  ℕ, Bool, true, false, not, ◌&&◌, ◌||◌, Option, none, some, List, [], ◌∷◌, if◌then◌else◌, ◌==◌,
  text_eq, Text, codes, ℤ, pos, pos_part, ltb_ℤ, leb_ℤ, length, take, has_prefix, trim_prefix,
  trim_slash,
}
use quiz.Scoring.Float.{Float64}
use quiz.Leaderboard.{Service, daily, weekly, monthly, all_time}
use quiz.Leaderboard.Reading.{
  Replies, Entry, LeaderboardEntry, parse_int, top, get_private_room_leaderboard, to_ws_entries,
}

pub is_valid_window : Text → Bool
is_valid_window window =
    (window == daily || window == weekly) || (window == monthly || window == all_time)

-- The limit of a query; `parse_int` is zero for a text that `strconv.Atoi` refuses.
pub limit_param : Text → ℤ
limit_param raw =
    let parsed = parse_int raw in
    if not (raw == []) && (ltb_ℤ (pos 0) parsed && leb_ℤ parsed (pos 100)) then parsed else pos 10

-- What `encoding/json` reads of a stored payload of type `P`, and the newest payloads of a window,
-- at most as many as the number says.
pub record Snapshots (F P : Type 0) : Type 0 where
  pub list_recent_snapshots : Text → ℕ → Option (List P)
  pub unmarshal : P → Option (List (LeaderboardEntry F))

pub record Request : Type 0 where
  pub is_get : Bool
  pub path : Text
  pub limit : Text

pub data Source : Type 0 where
  redis snapshot : Source

pub data Response (F : Type 0) : Type 0 where
  method_not_allowed unknown_window room_code_required fetch_failed : Response F
  window_board : Text → List (LeaderboardEntry F) → Source → Response F
  room_board : Text → List (LeaderboardEntry F) → Response F

module _ (fl : Float64) (user_text : ℕ → Text) (replies : Replies) where
  open fl use {F}

  abbrev pub cut : ℤ → Option (List (LeaderboardEntry F)) → List (LeaderboardEntry F)
  cut limit none = []
  cut limit (some entries) =
      if ltb_ℤ limit (pos (length entries)) then take (pos_part limit) entries else entries

  abbrev pub first_row :
      {P : Type 0} → Snapshots F P → ℤ → Option (List P) → List (LeaderboardEntry F)
  first_row q limit none = []
  first_row q limit (some []) = []
  first_row q limit (some (row ∷ rows)) = cut limit (q.unmarshal row)

  pub snapshot_fallback :
      {P : Type 0} → Option (Snapshots F P) → Text → ℤ → List (LeaderboardEntry F)
  snapshot_fallback none window limit = []
  snapshot_fallback (some q) window limit = first_row q limit (q.list_recent_snapshots window 1)

  -- Entries for the clients; an error shows none.
  abbrev pub shown_entries : Option (List (Entry F)) → List (LeaderboardEntry F)
  shown_entries none = []
  shown_entries (some entries) = to_ws_entries fl user_text replies 0 entries

  abbrev pub live_entries : Option Service → Text → ℤ → List (LeaderboardEntry F)
  live_entries none window limit = []
  live_entries (some svc) window limit = shown_entries (top fl user_text replies svc window limit)

  abbrev pub or_snapshot :
      {P : Type 0} → Option (Snapshots F P) → Text → ℤ → List (LeaderboardEntry F) → Response F
  or_snapshot q window limit [] = window_board window (snapshot_fallback q window limit) snapshot
  or_snapshot q window limit (e ∷ entries) = window_board window (e ∷ entries) redis

  abbrev pub room_response : Text → Option (List (Entry F)) → Response F
  room_response room_code none = fetch_failed
  room_response room_code (some entries) = room_board room_code (shown_entries (some entries))

  abbrev pub room_entries : Option Service → Text → ℤ → Response F
  room_entries none room_code limit = room_board room_code []
  room_entries (some svc) room_code limit =
      room_response room_code
        (get_private_room_leaderboard fl user_text replies svc room_code limit)

  pub handle_get_private_room : Option Service → Request → Response F
  unfolding limit_param
  handle_get_private_room svc r =
      let room_code = trim_slash (trim_prefix r.path (codes "/v1/leaderboards/private/")) in
      if not r.is_get
      then method_not_allowed
      else if room_code == []
      then room_code_required
      else room_entries svc room_code (limit_param r.limit)

  pub handle_get : {P : Type 0} → Option Service → Option (Snapshots F P) → Request → Response F
  unfolding limit_param snapshot_fallback handle_get_private_room is_valid_window
  handle_get svc q r =
      let path = trim_slash (trim_prefix r.path (codes "/v1/leaderboards/")) in
      if not r.is_get
      then method_not_allowed
      else if has_prefix path (codes "private/")
      then handle_get_private_room svc r
      else if path == [] || not (is_valid_window path)
      then unknown_window
      else or_snapshot q path (limit_param r.limit) (live_entries svc path (limit_param r.limit))
