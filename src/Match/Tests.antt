-- ===== src/Match/Tests.antt =====
-- Answering and finishing a match of internal/match/service.go on small inputs, with integers in
-- the place of `float64`.
use quiz.Prelude.{
  ℕ, ◌≡◌, ◌≤◌, ◌↔◌, refl, true, false, not, none, some, List, [], ◌∷◌, ◌++◌, map, text_beq, codes,
  ℤ, pos, ok, err, All, Distinct, contains, length, is_empty, int_eq,
}
use quiz.Scoring.{AnswerRecord}
use quiz.Scoring.Whole.{whole, config}
use quiz.Leaderboard.{RecordRequest}
use quiz.Match.{QuestionPackItem, PlayerState, PlayerStatus, Summary, LockReply, private_room}
use quiz.Match.Answering.{Submission, orders, submit_answer, already_answered, find_question}
use quiz.Match.Answering
use quiz.Match.Answering.Submit.{
  IsProper, Passes, Failed, answers, Played, none_yet, one_more, pack_orders, submit_answer_ok,
  submit_answer_err, Played-lem,
}
use quiz.Match.Finalize.{
  Clock, MatchCompletePayload, Route, judged, fill_missing, count_correct, result_of,
  finalize_match, record_requests, records_private, route_of,
}
use quiz.Match.Finalize
use quiz.Match.Finalize.Filling.{fill_missing_lem}
use quiz.Match.Finalize.Winners.{AtMost, any_won, scores, judged_lem}
use quiz.Match.Finalize.Results.{finalize_match-reports_zero}

abbrev question : ℕ → QuestionPackItem
question n = record {
  order = pos n;
  id = [];
  prompt = [];
  options = [];
  token = n ∷ [];
  correct_answer = codes "a";
}

abbrev two_questions : List QuestionPackItem
two_questions = question 1 ∷ question 2 ∷ []

abbrev player : List AnswerRecord → PlayerState ℤ
player given = record {
  match_id = 8;
  user_id = 3;
  is_guest = false;
  username = codes "u";
  joined_at = 0;
  left_at = none;
  final_score = none;
  status = PlayerStatus.active;
  accuracy = none;
  streak_bonus_pct = none;
  answers = given;
}

abbrev submission : Submission
submission = record { question_token = 1 ∷ []; answer = codes "a"; submitted_at = 5 }

abbrev replies : PlayerState ℤ → Answering.Replies ℤ
replies state = record {
  lock = LockReply.acquired;
  player_state = some (some state);
  questions = some two_questions;
  summary = none;
  stored = true;
}

abbrev first_answer : AnswerRecord
first_answer = Answering.answer_record whole config [] (question 1) none submission 6

answered : submit_answer whole config (replies (player [])) submission 6 ≡ (
  ok tt,
  Answering.locks ∷ Answering.stores (player (first_answer ∷ [])) ∷ Answering.unlocks ∷ [],
)
unfolding submit_answer Answering.checked_state Answering.store_checked Answering.with_lock
    find_question text_beq
answered = refl

submit_answer_ok_example :
    (state : PlayerState ℤ) × (questions : List QuestionPackItem) × (q : QuestionPackItem)
    × (after : PlayerState ℤ) × Passes whole config
        (replies (player []))
        submission
        6
        state
        questions
        q
        after
    × ((submit_answer whole config (replies (player [])) submission 6).1
        ≡ Answering.locks ∷ Answering.stores after ∷ Answering.unlocks ∷ [])
submit_answer_ok_example =
    submit_answer_ok whole config (replies (player [])) submission 6 (rw answered refl)

answered_again :
    (submit_answer whole config (replies (player (first_answer ∷ []))) submission 7).0
    ≡ err already_answered
unfolding submit_answer Answering.checked_state Answering.store_checked Answering.with_lock
    find_question text_beq
answered_again = refl

submit_answer_err_example :
    Failed whole config
      (replies (player (first_answer ∷ [])))
      submission
      7
      already_answered
      (submit_answer whole config (replies (player (first_answer ∷ []))) submission 7).1
submit_answer_err_example =
    submit_answer_err whole config (replies (player (first_answer ∷ []))) submission 7
      already_answered answered_again

first_answer-Played : Played whole config two_questions (player []) (player (first_answer ∷ []))
first_answer-Played =
    one_more none_yet
      (answers (replies (player [])) submission 6 refl refl (rw answered refl) (rw answered refl))

Played-lem_example :
    IsProper two_questions (first_answer ∷ []) × (length (first_answer ∷ []) ≤ length two_questions)
Played-lem_example = Played-lem whole config two_questions (player []) refl first_answer-Played

fill_missing_lem_example :
    let full =
      fill_missing (orders (first_answer ∷ [])) (λ i. 9) 0 two_questions (first_answer ∷ []) in
    (length full ≡ length two_questions)
    × Distinct (orders full)
    × All (λ o. contains o (orders full) ≡ true) (pack_orders two_questions)
    × (count_correct full ≡ count_correct (first_answer ∷ []))
    × ((extra : List AnswerRecord) × (full ≡ (first_answer ∷ []) ++ extra))
fill_missing_lem_example =
    fill_missing_lem (λ i. 9) two_questions (first_answer ∷ []) (refl, (refl, tt))
      (Played-lem whole config two_questions (player []) refl first_answer-Played).0

abbrev request : ℕ → ℤ → RecordRequest
request user score = record {
  user_id = user;
  username = [];
  score = score;
  correct_count = 1;
  question_count = 2;
  won = false;
  match_id = 8;
  windows = [];
  eligible = true;
}

abbrev two_requests : List RecordRequest
two_requests = request 1 (pos 250) ∷ request 2 (pos 100) ∷ []

judged_lem_example :
    All (λ r. (r.won ≡ true) ↔ AtMost two_requests r.score) (judged two_requests)
    × (any_won (judged two_requests) ≡ not (is_empty two_requests))
    × (scores (judged two_requests) ≡ scores two_requests)
judged_lem_example = judged_lem two_requests

abbrev summary : Summary
summary = record {
  per_question_seconds = pos 15;
  leaderboard_eligible = true;
  mode = private_room;
  room_code = codes "100023";
}

abbrev outcome : Finalize.Replies ℤ
outcome = record {
  lock = LockReply.acquired;
  has_leaderboard = true;
  first_summary = some summary;
  states = some (player (first_answer ∷ []) ∷ []);
  questions = some two_questions;
  second_summary = some summary;
  status_updated = true;
  route_summary = λ i. some summary;
}

abbrev clocks : ℕ → Clock
clocks i = record { filling = λ j. 9; scoring = λ j. 9 }

abbrev payload : MatchCompletePayload ℤ
payload = record {
  match_id = 8;
  results = map (result_of whole config) (player (first_answer ∷ []) ∷ []);
  leaderboard_eligible = true;
  leaderboard_position = 0;
}

finished : (finalize_match whole config 8 outcome clocks).0 ≡ ok payload
unfolding finalize_match Finalize.finalize_locked Finalize.finalize_loaded Finalize.with_lock
    route_of
finished = refl

finalize_match-reports_zero_example : All (λ r. r.final_score ≡ pos 0) payload.results
finalize_match-reports_zero_example =
    finalize_match-reports_zero whole config 8 outcome clocks payload
      (player (first_answer ∷ []) ∷ []) finished refl (refl, tt)
