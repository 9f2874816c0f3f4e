-- ===== src/Leaderboard.antt =====
-- internal/leaderboard/service.go and helpers.go: the leaderboards in Redis. UUIDs are numbers;
-- `user_text` is `uuid.UUID.String`. Redis is not part of the repository: each function returns
-- the commands that it queues, and what it reads is an argument.
pub mod Keys
pub mod Recording
pub mod Reading
pub mod Http
mod Tests
use quiz.Prelude.{
  ℕ, suc, ◌+◌, ◌-◌, Bool, true, false, not, ◌&&◌, ◌||◌, Option, none, some, List, [], ◌∷◌, ◌++◌,
  map, if◌then◌else◌, ◌==◌, text_eq, Text, codes, ℤ, pos, ltb_ℤ, leb_ℤ, is_empty, Result, ok, err,
}

-- The constants of the supported windows.
abbrev pub daily : Text
daily = codes "daily"

abbrev pub weekly : Text
weekly = codes "weekly"

abbrev pub monthly : Text
monthly = codes "monthly"

abbrev pub all_time : Text
all_time = codes "all_time"

abbrev pub default_windows : List Text
default_windows = daily ∷ weekly ∷ monthly ∷ all_time ∷ []

pub record RecordRequest : Type 0 where
  pub user_id : ℕ
  pub username : Text
  pub score : ℤ
  pub correct_count : ℕ
  pub question_count : ℕ
  pub won : Bool
  pub match_id : ℕ
  pub windows : List Text
  pub eligible : Bool

-- `ServiceOptions`, durations in nanoseconds; `ScoreDecay`, which nothing reads, is left out.
pub record ServiceOptions : Type 0 where
  pub top_n : ℤ
  pub pubsub_channel : Text
  pub windows : List Text
  pub entry_ttl : ℤ
  pub redis_key_prefix : Text
  pub snapshot_top_limit : ℤ

pub record Service : Type 0 where
  pub top_n : ℤ
  pub pubsub_channel : Text
  pub windows : List Text
  pub entry_ttl : ℤ
  pub prefix : Text
  pub snapshot_top_lim : ℤ

unfoldable pub new_service : ServiceOptions → Service
new_service opts = record {
  top_n = if leb_ℤ opts.top_n (pos 0) then pos 50 else opts.top_n;
  pubsub_channel = if opts.pubsub_channel == [] then codes "lb:updates" else opts.pubsub_channel;
  windows = if is_empty opts.windows then default_windows else opts.windows;
  entry_ttl = opts.entry_ttl;
  prefix = if opts.redis_key_prefix == [] then codes "lb" else opts.redis_key_prefix;
  snapshot_top_lim =
      if leb_ℤ opts.snapshot_top_limit (pos 0) then pos 100 else opts.snapshot_top_limit;
}

-- One command of a pipeline.
pub data Command : Type 0 where
  z_incr_by : Text → ℤ → Text → Command
  h_incr_by : Text → Text → ℤ → Command
  h_set : Text → Text → Text → Command
  expire : Text → ℤ → Command

abbrev pub colon : Text
colon = codes ":"

unfoldable pub leaderboard_key : Service → Text → Text
leaderboard_key s window = s.prefix ++ (colon ++ window)

unfoldable pub private_room_leaderboard_key : Service → Text → Text
private_room_leaderboard_key s room_code = s.prefix ++ (codes ":private_room:" ++ room_code)

abbrev bool_to_int : Bool → ℤ
bool_to_int true = pos 1
bool_to_int false = pos 0

abbrev pub seven_days : ℤ
seven_days = pos 604_800_000_000_000

module _ (user_text : ℕ → Text) where
  unfoldable pub meta_key : Service → Text → ℕ → Text
  meta_key s window user_id =
      s.prefix ++ (colon ++ (window ++ (codes ":meta:" ++ user_text user_id)))

  unfoldable pub private_room_meta_key : Service → Text → ℕ → Text
  private_room_meta_key s room_code user_id =
      s.prefix ++ (codes ":private_room:" ++ (room_code ++ (codes ":meta:" ++ user_text user_id)))

  -- The increments of a result, which both kinds of leaderboards share.
  pub entry_commands : Text → Text → RecordRequest → List Command
  entry_commands z_key meta_key req =
      z_incr_by z_key req.score (user_text req.user_id)
      ∷ h_incr_by meta_key (codes "wins") (bool_to_int req.won)
      ∷ h_incr_by meta_key (codes "games") (pos 1)
      ∷ h_incr_by meta_key (codes "correct") (pos req.correct_count)
      ∷ h_incr_by meta_key (codes "questions") (pos req.question_count)
      ∷ h_set meta_key (codes "username") req.username
      ∷ []

  -- The pipeline of `updateWindow`.
  pub update_window : Service → Text → RecordRequest → List Command
  unfolding entry_commands
  update_window s window req =
      let z_key = leaderboard_key s window in
      let m_key = meta_key s window req.user_id in
      entry_commands z_key m_key req
      ++ (if ltb_ℤ (pos 0) s.entry_ttl && not (window == all_time)
          then expire z_key s.entry_ttl ∷ expire m_key s.entry_ttl ∷ []
          else [])

  -- The pipelines of `RecordResult` that are executed: `fails` tells at which the transaction
  -- fails, which ends the loop with its error.
  pub record_windows :
      Service → RecordRequest → (Text → Bool) → List Text → Bool × List (List Command)
  unfolding update_window
  record_windows s req fails [] = (true, [])
  record_windows s req fails (w ∷ windows) =
      let (done, rest) = record_windows s req fails windows in
      if fails w then (false, []) else (done, update_window s w req ∷ rest)

  -- `RecordResult`: whether it returned without error, and the transactions.
  pub record_result : Service → RecordRequest → (Text → Bool) → Bool × List (List Command)
  unfolding record_windows
  record_result s req fails =
      if not req.eligible
      then (true, [])
      else record_windows s req fails (if is_empty req.windows then s.windows else req.windows)

  -- `RecordPrivateRoomResult`: the one transaction.
  pub record_private_room_result : Service → Text → RecordRequest → List (List Command)
  unfolding entry_commands
  record_private_room_result s room_code req =
      if not req.eligible
      then []
      else (let z_key = private_room_leaderboard_key s room_code in
          let m_key = private_room_meta_key s room_code req.user_id in
          (entry_commands z_key m_key req
            ++ (expire z_key seven_days ∷ expire m_key seven_days ∷ []))
          ∷ [])
