-- ===== src/Queue.antt =====
-- internal/match/queue/manager.go: the random 1v1 queue. UUIDs are numbers, times are nanoseconds,
-- the mutex makes each method one step on the state. `range` over the Go map visits the entries in
-- an order that the runtime picks: the argument `order` is that choice. `uuid.New` and `time.Now`
-- are the arguments `token` and `now`.
pub mod Search
pub mod Settled
pub mod Position
mod Tests
use quiz.Prelude.{
  ℕ, ◌+◌, ◌-◌, ◌*◌, Bool, true, false, not, ◌&&◌, Option, none, some, List, [], ◌∷◌, leb,
  if◌then◌else◌, ◌==◌, Text, codes, Map, lookup, insert, erase, ℤ, pos, negsuc, Result, ok, err,
  is_some, leb_ℤ, pos_part, nat_eq, text_eq,
}

pub record WaitingPlayer : Type 0 where
  pub user_id : ℕ
  pub username : Text
  pub is_guest : Bool
  pub preferred_category : Text
  pub preferred_difficulty : Text
  pub bot_ok : Bool
  pub queued_at : ℕ
  pub queue_token : ℕ

-- The field `waiting`: queue token to player.
abbrev pub Waiting : Type 0
Waiting = Map ℕ WaitingPlayer

pub record Manager : Type 0 where
  pub waiting : Waiting
  pub bot_wait_sec : ℤ

pub record MatchPair : Type 0 where
  pub player1 : WaitingPlayer
  pub player2 : WaitingPlayer

pub record MatchmakingRequest : Type 0 where
  pub user_id : ℕ
  pub username : Text
  pub is_guest : Bool
  pub preferred_category : Text
  pub preferred_difficulty : Text
  pub bot_ok : Bool

unfoldable pub new_manager : ℤ → Manager
new_manager bot_wait_seconds = record {
  waiting = [];
  bot_wait_sec = if leb_ℤ bot_wait_seconds (pos 0) then pos 10 else bot_wait_seconds;
}

abbrev pub general : Text
general = codes "general"

unfoldable pub normalize_category : Text → Text
normalize_category category = if category == [] then general else category

unfoldable pub is_compatible : WaitingPlayer → WaitingPlayer → Bool
is_compatible p1 p2 =
    let category1 = normalize_category p1.preferred_category in
    let category2 = normalize_category p2.preferred_category in
    if not (category1 == category2) then false else true

-- The loop of `Enqueue` that tries an immediate match, over the entries in the order visited.
unfoldable pub find_match : WaitingPlayer → Waiting → Option (ℕ × WaitingPlayer)
find_match player [] = none
find_match player ((other_token, other) ∷ m) =
    let rest = find_match player m in
    if other.user_id == player.user_id
    then rest
    else if is_compatible player other
    then some (other_token, other)
    else rest

unfoldable pub to_player : MatchmakingRequest → ℕ → ℕ → WaitingPlayer
to_player req token now = record {
  user_id = req.user_id;
  username = req.username;
  is_guest = req.is_guest;
  preferred_category = req.preferred_category;
  preferred_difficulty = req.preferred_difficulty;
  bot_ok = req.bot_ok;
  queued_at = now;
  queue_token = token;
}

-- The two ends of `Enqueue`: a match found, or the player put into the queue.
unfoldable pub settle :
    WaitingPlayer → Manager → Option (ℕ × WaitingPlayer) → Option MatchPair × Manager
settle player m none = (none, record m { waiting = insert player.queue_token player m.waiting })
settle player m (some (other_token, other)) = (
  some (record { player1 = player; player2 = other }),
  record m { waiting = erase other_token m.waiting },
)

unfoldable pub enqueue :
    (Waiting → Waiting) → ℕ → ℕ → MatchmakingRequest → Manager → ℕ × Option MatchPair × Manager
unfolding find_match to_player settle
enqueue order token now req m =
    let player = to_player req token now in
    let (pair, m') = settle player m (find_match player (order m.waiting)) in (token, pair, m')

pub data DequeueError : Type 0 where
  token_not_found : DequeueError

pub dequeue : ℕ → Manager → Result DequeueError (Unit {0}) × Manager
dequeue token m =
    if is_some (lookup token m.waiting)
    then (ok tt, record m { waiting = erase token m.waiting })
    else (err token_not_found, m)

-- `pos` counts the entries visited before; `none` stands for -1.
pub position_from : ℕ → ℕ → Waiting → Option ℕ
position_from token i [] = none
position_from token i ((t, p) ∷ m) =
    let rest = position_from token (i + 1) m in if t == token then some i else rest

pub get_position : (Waiting → Waiting) → ℕ → Manager → Option ℕ
unfolding position_from
get_position order token m = position_from token 0 (order m.waiting)

abbrev pub second : ℕ
second = 1_000_000_000

-- `time.Since` at the time `now`, which is not before `queued_at`.
pub should_offer_bot : ℕ → ℕ → Manager → Bool
should_offer_bot now token m = elim (lookup token m.waiting) [
  | none ↦ false
  | some player ↦ leb (pos_part m.bot_wait_sec * second) (now - player.queued_at) && player.bot_ok
]
