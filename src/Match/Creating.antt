-- ===== src/Match/Creating.antt =====
-- `CreateRandomMatch` and `CreatePrivateMatch` of internal/match/service.go. The seed text, the
-- match's UUID and the clock are arguments, and so is whether pgtype takes a UUID (`scans`); the
-- counts of questions and seconds are not negative. Errors that the code only logs change nothing.
pub mod Items
mod Tests
use quiz.Prelude.{
  ℕ, suc, ◌+◌, ◌*◌, ◌%◌, ◌^◌, Bool, true, false, not, ◌&&◌, Option, none, some, List, [], ◌∷◌, ◌++◌,
  map, if◌then◌else◌, ◌==◌, nat_eq, text_eq, ltb, Text, codes, Map, ℤ, pos, ◌-ℤ◌, Result, ok, err,
  ◌>>=◌, ◌>>◌, fail_if, is_empty,
}
use quiz.Scoring.Float.{Float64}
use quiz.Queue.{WaitingPlayer, MatchPair}
use quiz.Room.{RoomPlayer}
use quiz.Question.{Question}
use quiz.Question.Gather.{Outside, PackRequest, PackResponse, PackError}
use quiz.Question.Pack.{fetch_pack}
use quiz.Match.{
  QuestionPackItem, MatchMode, random_1v1, private_room, MatchStatus, PlayerState, PlayerStatus,
}

-- `Match`
pub record Match : Type 0 where
  pub id : ℕ
  pub mode : MatchMode
  pub question_count : ℕ
  pub per_question_seconds : ℕ
  pub global_timeout_seconds : ℕ
  pub seed_hash : Text
  pub leaderboard_eligible : Bool
  pub status : MatchStatus
  pub created_at : ℕ
  pub updated_at : ℕ

-- The parameters of the query that creates a match; `room_code` is the content of the metadata.
pub record CreateMatchParams : Type 0 where
  pub mode : MatchMode
  pub question_count : ℤ
  pub per_question_seconds : ℤ
  pub global_timeout_seconds : ℤ
  pub seed_hash : Text
  pub leaderboard_eligible : Bool
  pub status : MatchStatus
  pub created_by : Option ℕ
  pub room_code : Option Text

-- What the code asks of Postgres, of Redis and of the question service, in order.
pub data Action (F : Type 0) : Type 0 where
  creates : CreateMatchParams → Action F
  stores_questions : List QuestionPackItem → Action F
  saves_history : ℕ → List Text → Action F
  stores : PlayerState F → Action F
  persists : ℕ → Bool → Action F

pub data CreateError : Type 0 where
  scan_uuid create_match : CreateError
  fetch_failed : PackError → CreateError

-- What comes from outside; `range_counts` is the order in which the counts are visited.
pub record Replies : Type 0 where
  pub scans : ℕ → Bool
  pub created : Bool
  pub outside : Outside
  pub range_counts : Map Text ℕ → Map Text ℕ
  pub hmac_hex : Text → Text → Text
  pub hmac_key : Text

-- What a caller asks for.
pub record Plan : Type 0 where
  pub match_id : ℕ
  pub seed_hash : Text
  pub question_count : ℕ
  pub per_question_sec : ℕ
  pub category : Text
  pub now : ℕ

-- Go's conversion to `int16`.
pub to_int16 : ℕ → ℤ
to_int16 n = let r = n % 2 ^ 16 in if ltb r (2 ^ 15) then pos r else pos r -ℤ pos (2 ^ 16)

abbrev distribution : ℕ → ℕ → ℕ → Map Text ℕ
distribution easy medium hard =
    (codes "easy", easy) ∷ (codes "medium", medium) ∷ (codes "hard", hard) ∷ []

get_fixed_difficulty_distribution : ℕ → Map Text ℕ
get_fixed_difficulty_distribution question_count =
    if question_count == 5
    then distribution 2 2 1
    else if question_count == 10
    then distribution 4 3 3
    else if question_count == 15
    then distribution 7 5 3
    else distribution 4 3 3

sign_question_token : Replies → Text → Text → Text
sign_question_token replies question_id correct_answer =
    if is_empty replies.hmac_key
    then question_id
    else replies.hmac_hex replies.hmac_key (question_id ++ (codes ":" ++ correct_answer))

-- The questions as items, with the orders from `i + 1` on.
pub pack_items : Replies → ℕ → List Question → List QuestionPackItem
unfolding sign_question_token
pack_items replies i [] = []
pack_items replies i (q ∷ questions) =
    record {
      order = pos (i + 1);
      id = q.id;
      prompt = q.prompt;
      options = q.options;
      token = sign_question_token replies q.id q.answer;
      correct_answer = q.answer;
    }
    ∷ pack_items replies (i + 1) questions

-- A player as both functions see one: the UUID, whether a guest, and the name.
abbrev pub Entrant : Type 0
Entrant = ℕ × Bool × Text

abbrev global_timeout : Plan → ℕ
global_timeout plan = plan.question_count * plan.per_question_sec + 20

abbrev or_general : Text → Text
or_general category = if category == [] then codes "general" else category

unfoldable pub match_of : Plan → MatchMode → Bool → Match
match_of plan mode eligible = record {
  id = plan.match_id;
  mode = mode;
  question_count = plan.question_count;
  per_question_seconds = plan.per_question_sec;
  global_timeout_seconds = global_timeout plan;
  seed_hash = plan.seed_hash;
  leaderboard_eligible = eligible;
  status = MatchStatus.pending;
  created_at = plan.now;
  updated_at = plan.now;
}

abbrev pub params : Plan → MatchMode → Bool → Option ℕ → Option Text → CreateMatchParams
params plan mode eligible created_by room_code = record {
  mode = mode;
  question_count = to_int16 plan.question_count;
  per_question_seconds = to_int16 plan.per_question_sec;
  global_timeout_seconds = to_int16 (global_timeout plan);
  seed_hash = plan.seed_hash;
  leaderboard_eligible = eligible;
  status = MatchStatus.pending;
  created_by = created_by;
  room_code = room_code;
}

abbrev item_ids : List QuestionPackItem → List Text
item_ids = map λ q. q.id

abbrev pub entrant_of_waiting : WaitingPlayer → Entrant
entrant_of_waiting p = (p.user_id, p.is_guest, p.username)

abbrev pub entrant_of_room : RoomPlayer → Entrant
entrant_of_room p = (p.user_id, p.is_guest, p.username)

pub random_request : Replies → Plan → MatchPair → PackRequest
unfolding get_fixed_difficulty_distribution
random_request replies plan pair = record {
  category = or_general plan.category;
  difficulty_counts = replies.range_counts (get_fixed_difficulty_distribution plan.question_count);
  total_questions = plan.question_count;
  seed = plan.seed_hash;
  per_question_seconds = pos plan.per_question_sec;
  user_id = none;
  user_ids = some pair.player1.user_id ∷ some pair.player2.user_id ∷ [];
  match_mode = codes "random_1v1";
}

pub private_request : Replies → Plan → PackRequest
unfolding get_fixed_difficulty_distribution
private_request replies plan = record {
  category = or_general plan.category;
  difficulty_counts = replies.range_counts (get_fixed_difficulty_distribution plan.question_count);
  total_questions = plan.question_count;
  seed = plan.seed_hash;
  per_question_seconds = pos plan.per_question_sec;
  user_id = none;
  user_ids = [];
  match_mode = codes "private_room";
}

-- The host, who is scanned if there is one.
abbrev pub host_of : List RoomPlayer → Option ℕ
host_of [] = none
host_of (p ∷ players) = some p.user_id

abbrev pub host_scans : Replies → Option ℕ → Bool
host_scans replies none = true
host_scans replies (some host) = replies.scans host

module _ (fl : Float64) where
  pub initial_state : Plan → Entrant → PlayerState fl.F
  initial_state plan (user_id, is_guest, username) = record {
    match_id = plan.match_id;
    user_id = user_id;
    is_guest = is_guest;
    username = username;
    joined_at = plan.now;
    left_at = none;
    final_score = none;
    status = PlayerStatus.queued;
    accuracy = none;
    streak_bonus_pct = none;
    answers = [];
  }

  -- The loop over the players; one whose UUID is not taken is passed over.
  enter_players : Replies → Plan → List Entrant → List (Action fl.F)
  unfolding initial_state
  enter_players replies plan [] = []
  enter_players replies plan ((user_id, is_guest, username) ∷ players) =
      let rest = enter_players replies plan players in
      if replies.scans user_id
      then stores (initial_state plan (user_id, is_guest, username))
        ∷ persists user_id is_guest
        ∷ rest
      else rest

  abbrev Outcome : Type 0
  Outcome = Result CreateError (Match × List QuestionPackItem) × List (Action fl.F)

  -- From the fetched pack on: `history` is what is saved for the next matches.
  pub fill_match :
      Replies
      → Plan
      → MatchMode
      → Bool
      → List Entrant
      → (List Text → List (Action fl.F))
      → List (Action fl.F)
      → Result PackError PackResponse
      → Outcome
  unfolding pack_items enter_players match_of
  fill_match replies plan mode eligible players history before (err e) =
      (err (fetch_failed e), before)
  fill_match replies plan mode eligible players history before (ok resp) =
      let items = pack_items replies 0 resp.questions in
      (
        ok (match_of plan mode eligible, items),
        before
            ++ (stores_questions items
                ∷ (history (item_ids items) ++ enter_players replies plan players)),
      )

  unfoldable pub create_random_match : Replies → Plan → MatchPair → Outcome
  unfolding fill_match random_request
  create_random_match replies plan pair =
      let p1 = pair.player1 in
      let p2 = pair.player2 in
      let eligible = not p1.is_guest && not p2.is_guest in
      let creating = creates (params plan random_1v1 eligible (some p1.user_id) none) ∷ [] in
      if not (replies.scans plan.match_id && replies.scans p1.user_id)
      then (err scan_uuid, [])
      else if not replies.created
      then (err create_match, creating)
      else fill_match replies plan random_1v1 eligible
          (entrant_of_waiting p1 ∷ entrant_of_waiting p2 ∷ [])
          (λ ids. saves_history p1.user_id ids ∷ saves_history p2.user_id ids ∷ []) creating
          (fetch_pack fl replies.outside (random_request replies plan pair))

  unfoldable pub create_private_match : Replies → Plan → Text → List RoomPlayer → Outcome
  unfolding fill_match private_request
  create_private_match replies plan room_code players =
      let creating =
        creates (params plan private_room true (host_of players) (some room_code)) ∷ [] in
      if not (replies.scans plan.match_id && host_scans replies (host_of players))
      then (err scan_uuid, [])
      else if not replies.created
      then (err create_match, creating)
      else fill_match replies plan private_room true (map entrant_of_room players) (λ ids. [])
          creating (fetch_pack fl replies.outside (private_request replies plan))
