-- ===== src/Question/Pack/Size.antt =====
-- How many questions a fresh pack of internal/question/service.go holds.
use quiz.Prelude.{
  ◌+◌, ℕ, Result, none, List, ltb, length, ◌≡◌, arith, inl, inr, length-take, ok, bind-ok,
  Bool-cases,
}
use quiz.Scoring.Float.{Float64}
use quiz.Question.{Question}
use quiz.Question.Gather.{
  PackResponse, Outside, PackRequest, PackError, insufficient_questions, gather,
}
use quiz.Question.Pack.{
  Check, both, one, no_check, trim, drop_duplicates, check_of, cross_match, cross_match_both,
  cross_match_one, fetch_questions, fetch_pack,
}

-- A trimmed pack has the size asked for.
trim-length :
    (e : PackError) (total : ℕ) (qs out : List Question)
    → trim e total qs ≡ ok out
    → length out ≡ total
unfolding trim
trim-length e total qs out h = elim (Bool-cases (ltb (length qs) total)) [
  | inl short ↦ ground arith
  | inr enough ↦ elim (Bool-cases (ltb total (length qs))) [
    | inl long ↦ ground (arith, length-take total qs)
    | inr exact ↦ ground arith
  ]
]

cross_match-length :
    (fl : Float64) (o : Outside) (req : PackRequest) (check : Check) (qs out : List Question)
    → length qs ≡ req.total_questions
    → cross_match fl o req check qs ≡ ok out
    → length out ≡ req.total_questions
unfolding cross_match cross_match_both cross_match_one
cross_match-length fl o req (both player1 player2) qs out size h =
    trim-length _ req.total_questions _ out h
cross_match-length fl o req (one user) qs out size h = trim-length _ req.total_questions _ out h
cross_match-length fl o req no_check qs out size h = ground arith

-- Whatever the database, the generator, the histories and the floating point unit reply: a pack
-- that is made without an error has exactly the number of questions that the request asks for.
pub fetch_questions-length :
    (fl : Float64) (o : Outside) (req : PackRequest) (out : List Question)
    → fetch_questions fl o req ≡ ok out
    → length out ≡ req.total_questions
unfolding fetch_questions
fetch_questions-length fl o req out h =
    let (gathered, _, h1) = bind-ok (gather o req) _ out h in
    let (trimmed, e2, h2) =
      bind-ok (trim insufficient_questions req.total_questions (drop_duplicates fl o req gathered))
        _ out h1 in
    cross_match-length fl o req (check_of req) trimmed out
      (trim-length insufficient_questions req.total_questions (drop_duplicates fl o req gathered)
        trimmed e2)
      h2

-- The same of `FetchPack` when the cache has no pack.
pub fetch_pack-length :
    (fl : Float64) (o : Outside) (req : PackRequest) (resp : PackResponse)
    → o.cached ≡ none
    → fetch_pack fl o req ≡ ok resp
    → length resp.questions ≡ req.total_questions
unfolding fetch_pack
fetch_pack-length fl o req resp new h =
    let pack : List Question → Result PackError PackResponse =
      λ qs. ok (record { questions = qs; seed = req.seed; expires_at = o.now + 600 }) in
    let (out, fetched, made) =
      bind-ok (fetch_questions fl o req) pack resp (ground (arith, new, h)) in
    ground (arith, fetch_questions-length fl o req out fetched)
