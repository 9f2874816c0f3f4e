-- ===== src/Question/Pack/Tests.antt =====
-- The packs of internal/question/service.go on small inputs, with integers in the place of
-- `float64`.
use quiz.Prelude.{
  ℕ, ◌≡◌, ◌<◌, refl, arith, true, false, none, some, List, [], ◌∷◌, ◌++◌, ◌+◌, text_beq, codes,
  if◌then◌else◌, pos, leb, ok, All, length, nat_eq, ◌==◌,
}
use quiz.Scoring.Whole.{whole}
use quiz.Question.{
  Question, Row, sign_token, to_domain, HistoryReplies, check_user_question_history,
  check_both_players_history, check_within_match_duplicates, keep_ids, ids_of,
  add_user_question_history, set_ttl, s_add, expire,
}
use quiz.Question.Gather.{
  Outside, PackRequest, gather, fetch_curated, add_generated, fetch_ai_mixed, add_new,
}
use quiz.Question.Pack.{
  drop_duplicates, check_of, cross_match, cross_match_both, fetch_questions, fetch_pack, trim,
  keep_unseen, replace_both,
}
use quiz.Question.Pack.Size.{fetch_questions-length}
use quiz.Question.Pack.Duplicates.{drop_duplicates-keeps}
use quiz.Question.Pack.Histories.{
  IsReachable, IsUnseen, cross_match_both-IsUnseen, most_seen, cross_match_both-IsUnseen,
}

abbrev question : ℕ → Question
question n = record {
  id = n ∷ [];
  prompt = [];
  options = [];
  answer = codes "a";
  source = [];
  token = n ∷ [];
}

abbrev row : ℕ → Row
row n = record {
  question_id = n;
  prompt = [];
  options = [];
  correct_answer = codes "a";
  source = [];
}

-- Player 1 has seen the questions up to `seen_by_one`, player 2 has seen question 4.
abbrev histories : ℕ → HistoryReplies
histories seen_by_one = record {
  connected = true;
  is_member = λ user id. some false;
  pipeline = λ ids. true;
  seen =
      λ user id. elim id [ [] ↦ false | n ∷ _ ↦ if user == 1 then leb n seen_by_one else n == 4 ];
}

-- The pool has one row, which every call returns; the generator returns unseen questions.
abbrev outside : HistoryReplies → Outside
outside h = record {
  cached = none;
  fetch_pool = λ i count. some (row 1 ∷ []);
  generator = none;
  history = h;
  visit = λ m. m;
  uuid_text = λ n. n ∷ [];
  hmac_hex = λ key id. key;
  hmac_key = [];
  now = 7;
}

abbrev pack_request : ℕ → PackRequest
pack_request total = record {
  category = [];
  difficulty_counts = (codes "easy", 1) ∷ (codes "hard", 1) ∷ [];
  total_questions = total;
  seed = codes "s";
  per_question_seconds = pos 15;
  user_id = none;
  user_ids = some 1 ∷ some 2 ∷ [];
  match_mode = codes "private_room";
}

-- Both difficulties are served from the same pool, so the pack has the same question twice.
same_twice :
    fetch_questions whole (outside (histories 0)) (pack_request 2)
    ≡ ok (question 1 ∷ question 1 ∷ [])
unfolding fetch_questions gather fetch_curated add_generated cross_match check_of drop_duplicates
    check_within_match_duplicates keep_ids to_domain sign_token text_beq
same_twice = refl

fetch_questions-length_example : length (question 1 ∷ question 1 ∷ []) ≡ 2
fetch_questions-length_example =
    fetch_questions-length whole (outside (histories 0)) (pack_request 2)
      (question 1 ∷ question 1 ∷ []) same_twice

fetched :
    fetch_pack whole (outside (histories 0)) (pack_request 2)
    ≡ ok (record { questions = question 1 ∷ question 1 ∷ []; seed = codes "s"; expires_at = 607 })
unfolding fetch_pack
fetched = rw same_twice refl

drop_duplicates-keeps_example :
    drop_duplicates whole (outside (histories 0)) (pack_request 2) (question 1 ∷ question 1 ∷ [])
    ≡ question 1 ∷ question 1 ∷ []
drop_duplicates-keeps_example =
    drop_duplicates-keeps whole (outside (histories 0)) (pack_request 2)
      (question 1 ∷ question 1 ∷ []) (omega arith)

abbrev four_questions : List Question
four_questions = question 1 ∷ question 2 ∷ question 3 ∷ question 4 ∷ []

histories-IsReachable : (n : ℕ) → IsReachable (histories n) 1 2
unfolding IsReachable
histories-IsReachable n = (refl, refl, refl, λ ids. refl)

-- The generator has four new questions.
abbrev generating : Outside
generating = record (outside (histories 4)) {
  generator = some λ req. some (question 5 ∷ question 6 ∷ question 7 ∷ question 8 ∷ []);
}

abbrev new_questions : List Question
new_questions = question 5 ∷ question 6 ∷ question 7 ∷ question 8 ∷ []

all_seen : 3 < most_seen (histories 4) 1 2 four_questions
unfolding check_both_players_history
all_seen = omega arith

replaced : cross_match_both whole generating (pack_request 4) 1 2 four_questions ≡ ok new_questions
unfolding cross_match_both replace_both keep_unseen fetch_ai_mixed add_new trim
    check_both_players_history text_beq
replaced = refl

cross_match_both-IsUnseen_example : All (λ q. IsUnseen (histories 4) 1 2 q.id) new_questions
cross_match_both-IsUnseen_example =
    cross_match_both-IsUnseen whole generating (pack_request 4) 1 2 four_questions new_questions
      (histories-IsReachable 4) refl all_seen replaced

-- Player 1 has seen question 1 and player 2 has seen question 4.
one_each :
    check_both_players_history (histories 1) 1 2 (ids_of four_questions)
    ≡ record { unseen_by_both = (2 ∷ []) ∷ (3 ∷ []) ∷ []; dup1_count = 1; dup2_count = 1 }
unfolding check_both_players_history
one_each = refl

two_missing :
    length (
        keep_ids
          (check_both_players_history (histories 1) 1 2 (ids_of four_questions)).unseen_by_both
          four_questions)
      + most_seen (histories 1) 1 2 four_questions
    < 4
unfolding keep_ids text_beq
two_missing = rw one_each (omega arith)

-- The history is written, and its expiry fails.
recorded : add_user_question_history true (λ n. n ∷ []) 7 ((1 ∷ []) ∷ []) true false ≡ (
  some set_ttl,
  s_add (codes "user:questions:" ++ 7 ∷ []) ((1 ∷ []) ∷ [])
      ∷ expire (codes "user:questions:" ++ 7 ∷ []) 864_000
      ∷ [],
)
unfolding add_user_question_history
recorded = refl

checked_one : check_user_question_history (histories 1) 7 ((1 ∷ []) ∷ []) ≡ ((1 ∷ []) ∷ [], 0)
unfolding check_user_question_history
checked_one = refl
