-- ===== src/Question/Gather.antt =====
-- The request, the outside world and the gathering of questions in `FetchPack` of
-- internal/question/service.go. The maps of counts are association lists in the order in which
-- `range` visits them; counts are not negative. The pool of the database, the generator and Redis
-- are arguments; `fetch_pool i` answers the call number `i`.
use quiz.Prelude.{
  ℕ, ◌+◌, ◌-◌, Bool, not, ◌&&◌, Option, none, some, List, [], ◌∷◌, ◌++◌, map, if◌then◌else◌, ◌==◌,
  nat_eq, text_eq, int_eq, ltb, Text, Map, insert, lookup, contains, length, ℤ, pos, ◌+ℤ◌, ltb_ℤ,
  Result, ok, err, ◌>>=◌, or_fail,
}
use quiz.Scoring.Float.{Float64}
use quiz.Question.{Question, Row, to_domain, HistoryReplies}

pub record PackRequest : Type 0 where
  pub category : Text
  pub difficulty_counts : Map Text ℕ
  pub total_questions : ℕ
  pub seed : Text
  pub per_question_seconds : ℤ
  pub user_id : Option ℕ
  pub user_ids : List (Option ℕ)
  pub match_mode : Text

pub record PackResponse : Type 0 where
  pub questions : List Question
  pub seed : Text
  pub expires_at : ℕ

pub record AiGenerateRequest : Type 0 where
  pub category : Text
  pub count : ℤ
  pub seed : Text
  pub difficulty_counts : Map Text ℤ

pub data PackError : Type 0 where
  fetch_pool_failed ai_fallback_failed insufficient_questions insufficient_unique : PackError

-- What lies outside: the cache's reply, the database, the generator if there is one, Redis, the
-- order in which `range` visits the map of duplicates, and the text of identifiers and tokens.
pub record Outside : Type 0 where
  pub cached : Option PackResponse
  pub fetch_pool : ℕ → ℕ → Option (List Row)
  pub generator : Option (AiGenerateRequest → Option (List Question))
  pub history : HistoryReplies
  pub visit : Map Text Question → Map Text Question
  pub uuid_text : ℕ → Text
  pub hmac_hex : Text → Text → Text
  pub hmac_key : Text
  pub now : ℕ

-- The loop over the difficulties: the curated questions, and what is still needed.
unfoldable pub fetch_curated :
    Outside → ℕ → Map Text ℕ → Result PackError (List Question × Map Text ℤ)
fetch_curated o i [] = ok ([], [])
fetch_curated o i ((diff, count) ∷ counts) = do
  rows ← or_fail (o.fetch_pool i count) fetch_pool_failed
  rest ← fetch_curated o (i + 1) counts
  ok (
    map (to_domain o.uuid_text o.hmac_hex o.hmac_key) rows ++ rest.0,
    (if ltb (length rows) count then (diff, pos (count - length rows)) ∷ rest.1 else rest.1),
  )

abbrev pub sum_needs : Map Text ℤ → ℤ
sum_needs [] = pos 0
sum_needs ((diff, n) ∷ needs) = n +ℤ sum_needs needs

-- `none` without a generator or if it fails.
unfoldable pub fetch_ai_mixed : Outside → Text → Map Text ℤ → Text → Option (List Question)
fetch_ai_mixed o category needs seed = elim o.generator [
  | none ↦ none
  | some generate ↦ generate (record {
    category = category;
    count = sum_needs needs;
    seed = seed;
    difficulty_counts = needs;
  })
]

unfoldable pub add_generated :
    Outside → PackRequest → List Question → Map Text ℤ → Result PackError (List Question)
unfolding fetch_ai_mixed
add_generated o req curated needs =
    if not (ltb_ℤ (pos 0) (sum_needs needs))
    then ok curated
    else elim (fetch_ai_mixed o req.category needs req.seed) [
      | none ↦ err ai_fallback_failed
      | some ai ↦ ok (curated ++ ai)
    ]

-- The questions of the database, and those of the generator for what is missing.
unfoldable pub gather : Outside → PackRequest → Result PackError (List Question)
gather o req = do
  (curated, needs) ← fetch_curated o 0 req.difficulty_counts
  add_generated o req curated needs

-- The loop that takes additional questions: `usable` is the test of the history, `known` holds the
-- identifiers in the pack.
unfoldable pub add_new :
    (Text → Bool) → ℕ → List Text → List Question → List Question → List Question
add_new usable total known filtered [] = filtered
add_new usable total known filtered (q ∷ qs) =
    let fresh = usable q.id && (not (contains q.id known) && ltb (length filtered) total) in
    add_new usable total (if fresh then q.id ∷ known else known)
      (if fresh then filtered ++ q ∷ [] else filtered) qs

-- At least one question for a difficulty that the request has.
unfoldable pub at_least_one : Map Text ℕ → Map Text ℤ → Map Text ℤ
at_least_one [] needs = needs
at_least_one ((diff, count) ∷ counts) needs = at_least_one counts (elim (lookup diff needs) [
  | none ↦ needs
  | some n ↦ if ltb 0 count && n == pos 0 then insert diff (pos 1) needs else needs
])

module _ (fl : Float64) where
  -- `regenerateNeeds`: each difficulty's share of what is needed, in floating point.
  pub share : ℕ → ℕ → ℕ → ℤ
  share needed count total =
      fl.trunc
        (fl.mul (fl.of_int (pos needed)) (fl.div (fl.of_int (pos count)) (fl.of_int (pos total))))

  unfoldable pub proportional : ℕ → ℕ → Map Text ℕ → Map Text ℤ
  unfolding share
  proportional needed total [] = []
  proportional needed total ((diff, count) ∷ counts) =
      (diff, share needed count total) ∷ proportional needed total counts
