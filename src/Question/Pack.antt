-- ===== src/Question/Pack.antt =====
-- `FetchPack` of internal/question/service.go after the gathering, stage by stage.
pub mod Size
pub mod Duplicates
pub mod Histories
mod Tests
use Prim.Native.Nat.{max}
use quiz.Prelude.{
  ℕ, suc, ◌+◌, ◌-◌, ◌<◌, Bool, true, false, not, ◌&&◌, ◌||◌, Option, none, some, List, [], ◌∷◌,
  ◌++◌, map, if◌then◌else◌, ◌==◌, nat_eq, text_eq, int_eq, ltb, leb, Text, codes, Map, insert,
  lookup, contains, is_empty, length, take, ℤ, pos, ◌+ℤ◌, ltb_ℤ, Result, ok, err, ◌>>=◌, ◌>>◌,
  fail_if, or_fail,
}
use quiz.Scoring.Float.{Float64}
use quiz.Question.{
  Question, Row, to_domain, check_within_match_duplicates, ids_of, keep_ids, HistoryReplies,
  check_user_question_history, BothUnseen, check_both_players_history,
}
use quiz.Question.Gather.{
  PackRequest, PackResponse, AiGenerateRequest, PackError, fetch_pool_failed, ai_fallback_failed,
  insufficient_questions, insufficient_unique, Outside, fetch_curated, sum_needs, fetch_ai_mixed,
  add_generated, gather, add_new, share, proportional, at_least_one,
}

-- The final validation: enough questions, and no more than asked for.
unfoldable pub trim : PackError → ℕ → List Question → Result PackError (List Question)
trim e total result = do
  fail_if (ltb (length result) total) e
  ok (if ltb total (length result) then take total result else result)

-- The questions unseen by both, each identifier once.
pub keep_unseen : List Text → List Text → List Question → List Question
keep_unseen unseen taken [] = []
keep_unseen unseen taken (q ∷ qs) =
    let keep = contains q.id unseen && not (contains q.id taken) in
    let rest = keep_unseen unseen (if keep then q.id ∷ taken else taken) qs in
    if keep then q ∷ rest else rest

-- `duplicateMap`: the last question of each identifier that is not unseen.
seen_questions : List Text → List Question → Map Text Question → Map Text Question
seen_questions unseen [] m = m
seen_questions unseen (q ∷ qs) m =
    seen_questions unseen qs (if contains q.id unseen then m else insert q.id q m)

-- The loop over it, in the order visited.
fill_up : ℕ → List Question → Map Text Question → List Question
fill_up total filtered [] = filtered
fill_up total filtered ((id, q) ∷ m) =
    fill_up total (if ltb (length filtered) total then filtered ++ q ∷ [] else filtered) m

-- One to three questions from the history: they are put back if they are few enough.
pub allow_few : Outside → PackRequest → List Text → ℕ → List Question → List Question
unfolding keep_ids seen_questions fill_up
allow_few o req unseen max_dup result =
    let filtered = keep_ids unseen result in
    let needed = req.total_questions - length filtered in
    if ltb 0 needed && leb needed max_dup
    then fill_up req.total_questions filtered (o.visit (seen_questions unseen result []))
    else filtered

-- Which check applies.
pub data Check : Type 0 where
  both : ℕ → ℕ → Check
  one : ℕ → Check
  no_check : Check

single_check : Option ℕ → Check
single_check none = no_check
single_check (some user) = if user == 0 then no_check else one user

unfoldable pub check_of : PackRequest → Check
unfolding single_check
check_of req = if not (req.match_mode == codes "random_1v1") then no_check else elim req.user_ids [
  | some player1 ∷ some player2 ∷ more ↦ both player1 player2
  | _ ↦ single_check req.user_id
]

module _ (fl : Float64) where
  -- The check within the match.
  unfoldable pub drop_duplicates : Outside → PackRequest → List Question → List Question
  unfolding check_within_match_duplicates keep_ids add_new proportional at_least_one fetch_ai_mixed
  drop_duplicates o req result =
      let (unique, has_duplicates) = check_within_match_duplicates (ids_of result) in
      let filtered = keep_ids unique result in
      let needed = req.total_questions - length filtered in
      let needs =
        at_least_one req.difficulty_counts
          (proportional fl needed req.total_questions req.difficulty_counts) in
      if not has_duplicates
      then result
      else if not (ltb 0 needed)
      then filtered
      else elim (fetch_ai_mixed o req.category needs (req.seed ++ codes "-retry")) [
        | none ↦ filtered
        | some additional ↦
            add_new (λ id. true) req.total_questions (ids_of filtered) filtered additional
      ]

  -- More than three: only questions unseen by both players, the rest from the generator.
  pub replace_both : Outside → PackRequest → ℕ → ℕ → List Text → List Question → List Question
  unfolding keep_unseen add_new proportional at_least_one fetch_ai_mixed
  replace_both o req player1 player2 unseen result =
      let filtered = keep_unseen unseen [] result in
      let needed = req.total_questions - length filtered in
      let needs =
        at_least_one req.difficulty_counts
          (proportional fl needed req.total_questions req.difficulty_counts) in
      let usable = λ (id : Text). not (
        is_empty (check_both_players_history o.history player1 player2 (id ∷ [])).unseen_by_both) in
      if not (ltb 0 needed)
      then result
      else elim (fetch_ai_mixed o req.category needs (req.seed ++ codes "-unique")) [
        | none ↦ filtered
        | some additional ↦ add_new usable req.total_questions (ids_of filtered) filtered additional
      ]

  pub cross_match_both :
      Outside → PackRequest → ℕ → ℕ → List Question → Result PackError (List Question)
  unfolding replace_both allow_few trim
  cross_match_both o req player1 player2 result =
      let check = check_both_players_history o.history player1 player2 (ids_of result) in
      let max_dup = max check.dup1_count check.dup2_count in
      trim insufficient_unique req.total_questions (
        if ltb 3 max_dup
        then replace_both o req player1 player2 check.unseen_by_both result
        else if ltb 0 max_dup
        then allow_few o req check.unseen_by_both max_dup result
        else result)

  -- The same for the deprecated single user.
  replace_one : Outside → PackRequest → ℕ → List Text → List Question → List Question
  unfolding keep_ids add_new proportional fetch_ai_mixed
  replace_one o req user unseen result =
      let filtered = keep_ids unseen result in
      let needed = req.total_questions - length filtered in
      let needs = proportional fl needed req.total_questions req.difficulty_counts in
      let usable =
        λ (id : Text). not (is_empty (check_user_question_history o.history user (id ∷ [])).0) in
      if not (ltb 0 needed)
      then result
      else elim (fetch_ai_mixed o req.category needs (req.seed ++ codes "-unique")) [
        | none ↦ filtered
        | some additional ↦ add_new usable req.total_questions (ids_of filtered) filtered additional
      ]

  pub cross_match_one : Outside → PackRequest → ℕ → List Question → Result PackError (List Question)
  unfolding replace_one allow_few trim
  cross_match_one o req user result =
      let (unseen, duplicates) = check_user_question_history o.history user (ids_of result) in
      trim insufficient_unique req.total_questions (
        if ltb 3 duplicates
        then replace_one o req user unseen result
        else if ltb 0 duplicates
        then allow_few o req unseen duplicates result
        else result)

  unfoldable pub cross_match :
      Outside → PackRequest → Check → List Question → Result PackError (List Question)
  unfolding cross_match_both cross_match_one
  cross_match o req (both player1 player2) result = cross_match_both o req player1 player2 result
  cross_match o req (one user) result = cross_match_one o req user result
  cross_match o req no_check result = ok result

  unfoldable pub fetch_questions : Outside → PackRequest → Result PackError (List Question)
  fetch_questions o req = do
    gathered ← gather o req
    trimmed ← trim insufficient_questions req.total_questions (drop_duplicates o req gathered)
    cross_match o req (check_of req) trimmed

  abbrev ten_minutes : ℕ
  ten_minutes = 600

  -- `FetchPack`: the cached pack, or a new one.
  unfoldable pub fetch_pack : Outside → PackRequest → Result PackError PackResponse
  fetch_pack o req = elim o.cached [
    | some resp ↦ ok resp
    | none ↦ do
      result ← fetch_questions o req
      ok (record { questions = result; seed = req.seed; expires_at = o.now + ten_minutes })
  ]
