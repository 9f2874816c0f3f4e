-- ===== src/Match/Finalize.antt =====
-- `FinalizeMatch` of internal/match/service.go.
pub mod Filling
pub mod Results
pub mod Saved
pub mod Winners
use quiz.Prelude.{
  ℕ, suc, ◌+◌, Bool, true, false, not, ◌&&◌, ◌||◌, Option, none, some, List, [], ◌∷◌, ◌++◌, map,
  if◌then◌else◌, ◌==◌, text_eq, int_eq, Text, ℤ, pos, ltb_ℤ, Result, ok, err, contains, length,
  is_some, is_empty,
}
use quiz.Scoring.{AnswerRecord, ScoringConfig, compute_final_score}
use quiz.Scoring.Float.{Float64}
use quiz.Leaderboard.{RecordRequest}
use quiz.Match.{
  QuestionPackItem, MatchMode, random_1v1, private_room, PlayerState, PlayerStatus, Summary,
  LockReply,
}
use quiz.Match.Answering.{per_question_timeout, orders}

-- What the code asks of Redis, of Postgres and of the leaderboard.
pub data Action (F : Type 0) : Type 0 where
  locks unlocks completes_match : Action F
  db_finalizes stores : PlayerState F → Action F
  records_private : Text → RecordRequest → Action F
  records_main : RecordRequest → Action F

pub data FinalizeError : Type 0 where
  acquire_lock get_states get_questions update_status : FinalizeError

-- What they reply; `route_summary i` is the summary read for the result `i`.
pub record Replies (F : Type 0) : Type 0 where
  pub lock : LockReply
  pub has_leaderboard : Bool
  pub first_summary : Option Summary
  pub states : Option (List (PlayerState F))
  pub questions : Option (List QuestionPackItem)
  pub second_summary : Option Summary
  pub status_updated : Bool
  pub route_summary : ℕ → Option Summary

-- The readings of the clock while one player is finalised.
pub record Clock : Type 0 where
  pub filling : ℕ → ℕ
  pub scoring : ℕ → ℕ

-- `ws.MatchResult` and `ws.MatchCompletePayload`
pub record MatchResult (F : Type 0) : Type 0 where
  pub user_id : ℕ
  pub username : Text
  pub final_score : ℤ
  pub accuracy : F
  pub streak_bonus_applied : F
  pub status : PlayerStatus

pub record MatchCompletePayload (F : Type 0) : Type 0 where
  pub match_id : ℕ
  pub results : List (MatchResult F)
  pub leaderboard_eligible : Bool
  pub leaderboard_position : ℕ

pub missing_answer : QuestionPackItem → ℕ → AnswerRecord
missing_answer q now = record {
  question_order = q.order;
  question_token = q.token;
  answer = [];
  submitted_at = now;
  is_correct = false;
  score_earned = pos 0;
}

-- The loop that adds a wrong answer for each question whose order is not among `answered`.
pub fill_missing :
    List ℤ → (ℕ → ℕ) → ℕ → List QuestionPackItem → List AnswerRecord → List AnswerRecord
fill_missing answered clock i [] answers = answers
fill_missing answered clock i (q ∷ questions) answers =
    fill_missing answered clock (i + 1) questions
      (if contains q.order answered then answers else answers ++ missing_answer q (clock i) ∷ [])

-- The loop that counts the right answers.
pub count_correct : List AnswerRecord → ℕ
count_correct [] = 0
count_correct (a ∷ answers) = let n = count_correct answers in if a.is_correct then suc n else n

-- `highest`, over the requests after the first.
pub highest_score : ℤ → List RecordRequest → ℤ
highest_score highest [] = highest
highest_score highest (req ∷ reqs) =
    highest_score (if ltb_ℤ highest req.score then req.score else highest) reqs

pub assign_won : ℤ → List RecordRequest → List RecordRequest
assign_won highest [] = []
assign_won highest (req ∷ reqs) =
    record req { won = req.score == highest } ∷ assign_won highest reqs

-- The requests with their winners marked.
pub judged : List RecordRequest → List RecordRequest
unfolding highest_score assign_won
judged [] = []
judged (req ∷ reqs) = assign_won (highest_score req.score reqs) (req ∷ reqs)

abbrev is_random : MatchMode → Bool
is_random random_1v1 = true
is_random _ = false

abbrev is_private : MatchMode → Bool
is_private private_room = true
is_private _ = false

abbrev is_random_summary : Option Summary → Bool
is_random_summary none = false
is_random_summary (some s) = is_random s.mode

-- `leaderboardEligible`, `isPrivateRoom` and `roomCode`.
pub record Route : Type 0 where
  pub leaderboard_eligible : Bool
  pub is_private_room : Bool
  pub room_code : Text

unfoldable pub route_of : Bool → Option Summary → Route
route_of has_leaderboard none = record {
  leaderboard_eligible = false;
  is_private_room = false;
  room_code = [];
}
route_of has_leaderboard (some s) =
    if has_leaderboard
    then record {
      leaderboard_eligible = s.leaderboard_eligible;
      is_private_room = is_private s.mode;
      room_code = if is_private s.mode then s.room_code else [];
    }
    else record { leaderboard_eligible = false; is_private_room = false; room_code = [] }

module _ (fl : Float64) (cfg : ScoringConfig fl.F) where
  open fl use {F, zero}

  -- Each request goes to the leaderboard of the room, to the main one, or to none.
  pub record_requests : Route → (ℕ → Option Summary) → ℕ → List RecordRequest → List (Action F)
  record_requests route summary i [] = []
  record_requests route summary i (req ∷ reqs) =
      let rest = record_requests route summary (i + 1) reqs in
      if route.is_private_room && not (route.room_code == [])
      then records_private route.room_code req ∷ rest
      else if is_random_summary (summary i)
      then records_main req ∷ rest
      else rest

  -- The state of a player after the loop body.
  finalize_state : ℤ → List QuestionPackItem → Clock → PlayerState F → PlayerState F
  unfolding fill_missing
  finalize_state timeout questions clock state =
      let answers = fill_missing (orders state.answers) clock.filling 0 questions state.answers in
      let (total, accuracy, bonus) = compute_final_score fl cfg answers timeout clock.scoring in
      record state {
        answers = answers;
        final_score = some total;
        accuracy = some accuracy;
        streak_bonus_pct = some bonus;
        status = if is_some state.left_at then PlayerStatus.left_early else PlayerStatus.completed;
      }

  -- The request for the leaderboard of a finalised state.
  pub record_request : ℕ → ℕ → PlayerState F → RecordRequest
  unfolding count_correct
  record_request match_id total_questions state = record {
    user_id = state.user_id;
    username = state.username;
    score = elim state.final_score [ none ↦ pos 0 | some n ↦ n ];
    correct_count = count_correct state.answers;
    question_count = total_questions;
    won = false;
    match_id = match_id;
    windows = [];
    eligible = true;
  }

  -- The loop over the players: the finalised states, in order.
  pub finalize_states :
      ℤ → List QuestionPackItem → (ℕ → Clock) → ℕ → List (PlayerState F) → List (PlayerState F)
  unfolding finalize_state
  finalize_states timeout questions clocks i [] = []
  finalize_states timeout questions clocks i (s ∷ states) =
      finalize_state timeout questions (clocks i) s
      ∷ finalize_states timeout questions clocks (i + 1) states

  pub save_states : List (PlayerState F) → List (Action F)
  save_states [] = []
  save_states (s ∷ states) = db_finalizes s ∷ stores s ∷ save_states states

  -- The requests of the players who are no guests, if the match counts.
  pub collect_requests : Bool → ℕ → ℕ → List (PlayerState F) → List RecordRequest
  unfolding record_request
  collect_requests eligible match_id total [] = []
  collect_requests eligible match_id total (s ∷ states) =
      let rest = collect_requests eligible match_id total states in
      if eligible && not s.is_guest then record_request match_id total s ∷ rest else rest

  abbrev or_zero : Option ℤ → ℤ
  or_zero none = pos 0
  or_zero (some n) = n

  abbrev or_zero_float : Option F → F
  or_zero_float none = zero
  or_zero_float (some x) = x

  -- A row of the payload. The loop over the players works on copies of the states, so the rows are
  -- made from the states as they were read.
  pub result_of : PlayerState F → MatchResult F
  result_of state = record {
    user_id = state.user_id;
    username = state.username;
    final_score = or_zero state.final_score;
    accuracy = or_zero_float state.accuracy;
    streak_bonus_applied = or_zero_float state.streak_bonus_pct;
    status = state.status;
  }

  unfoldable pub finalize_loaded :
      ℕ
      → Replies F
      → (ℕ → Clock)
      → List (PlayerState F)
      → List QuestionPackItem
      → Result FinalizeError (MatchCompletePayload F) × List (Action F)
  finalize_loaded match_id replies clocks states questions =
      let route = route_of replies.has_leaderboard replies.first_summary in
      let timeout = per_question_timeout replies.second_summary in
      let finals = finalize_states timeout questions clocks 0 states in
      let reqs = collect_requests route.leaderboard_eligible match_id (length questions) finals in
      let saved = save_states finals in
      if not replies.status_updated then (err update_status, saved ++ completes_match ∷ []) else (
        ok (record {
          match_id = match_id;
          results = map result_of states;
          leaderboard_eligible = route.leaderboard_eligible;
          leaderboard_position = 0;
        }),
        saved ++ (completes_match ∷ record_requests route replies.route_summary 0 (judged reqs)),
      )

  unfoldable pub finalize_locked :
      ℕ → Replies F → (ℕ → Clock) → Result FinalizeError (MatchCompletePayload F) × List (Action F)
  finalize_locked match_id replies clocks = elim replies.states [
    | none ↦ (err get_states, [])
    | some states ↦ elim replies.questions [
      | none ↦ (err get_questions, [])
      | some questions ↦ finalize_loaded match_id replies clocks states questions
    ]
  ]

  -- `locks` is the SET NX of `LockMatch`, which is sent whatever the reply.
  unfoldable pub with_lock :
      LockReply
      → Result FinalizeError (MatchCompletePayload F) × List (Action F)
      → Result FinalizeError (MatchCompletePayload F) × List (Action F)
  with_lock LockReply.acquired (r, actions) = (r, locks ∷ actions ++ unlocks ∷ [])
  with_lock LockReply.held body = (err acquire_lock, locks ∷ [])
  with_lock LockReply.failed body = (err acquire_lock, locks ∷ [])

  unfoldable pub finalize_match :
      ℕ → Replies F → (ℕ → Clock) → Result FinalizeError (MatchCompletePayload F) × List (Action F)
  finalize_match match_id replies clocks =
      with_lock replies.lock (finalize_locked match_id replies clocks)
