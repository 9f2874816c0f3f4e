-- ===== src/Question/Pack/Duplicates.antt =====
-- The check of internal/question/service.go for questions that stand twice in a pack.
use quiz.Prelude.{
  ◌-◌, true, false, List, [], ◌∷◌, ◌==◌, nat_eq, text_eq, text_beq_iff, ltb, ◌≡◌, refl, arith, Text,
  contains, length, beq_self, Bool-cases, ap, ◌≤◌, inl, inr,
}
use quiz.Scoring.Float.{Float64}
use quiz.Question.{Question, unique_ids, check_within_match_duplicates, ids_of, keep_ids}
use quiz.Question.Gather.{Outside, PackRequest}
use quiz.Question.Pack.{drop_duplicates}

-- Every identifier that is not known yet is among the unique ones.
unique_ids-covers :
    (id : Text) (seen ids : List Text)
    → contains id ids ≡ true
    → contains id seen ≡ false
    → contains id (unique_ids seen ids).0 ≡ true
unfolding unique_ids
unique_ids-covers id seen [] h fresh = cc
unique_ids-covers id seen (x ∷ ids) h fresh = elim (Bool-cases (contains x seen)) [
  | inl known ↦ elim (Bool-cases (x == id)) [
    | inl same ↦ ground (arith, text_beq_iff x id, ap (λ y. contains y seen) {x = x} {y = id})
    | inr other ↦ rw known (unique_ids-covers id seen ids (ground arith) fresh)
  ]
  | inr new ↦ elim (Bool-cases (x == id)) [
    | inl same ↦ rw new (ground arith)
    | inr other ↦
        let covered : contains id (unique_ids (x ∷ seen) ids).0 ≡ true =
          unique_ids-covers id (x ∷ seen) ids (ground arith) (ground arith) in
        rw (new, other) covered
  ]
]

-- A filter that has the identifiers of all questions keeps all.
keep_ids-all :
    (kept : List Text) (qs : List Question)
    → ((id : Text) → contains id (ids_of qs) ≡ true → contains id kept ≡ true)
    → keep_ids kept qs ≡ qs
unfolding keep_ids
keep_ids-all kept [] h = refl
keep_ids-all kept (q ∷ qs) h =
    rw (h q.id (ground (arith, beq_self q.id)))
      (ap (λ rest. q ∷ rest) (keep_ids-all kept qs λ id known. h id (ground arith)))

-- The filter by the unique identifiers of a pack removes none of its questions, whether they stand
-- twice or not.
keep_ids-check_within_match_duplicates :
    (qs : List Question) → keep_ids (check_within_match_duplicates (ids_of qs)).0 qs ≡ qs
unfolding check_within_match_duplicates
keep_ids-check_within_match_duplicates qs =
    keep_ids-all (unique_ids [] (ids_of qs)).0 qs
      λ id known. unique_ids-covers id [] (ids_of qs) known refl

-- If at least as many questions are gathered as the request asks for, the check for duplicates
-- returns them as they are, with every question that stands twice.
pub drop_duplicates-keeps :
    (fl : Float64) (o : Outside) (req : PackRequest) (result : List Question)
    → req.total_questions ≤ length result
    → drop_duplicates fl o req result ≡ result
unfolding drop_duplicates
drop_duplicates-keeps fl o req result enough =
    elim (Bool-cases (check_within_match_duplicates (ids_of result)).1) [
      | inl some_twice ↦ rw some_twice (
          rw (keep_ids-check_within_match_duplicates result) (
            let none_needed : ltb 0 (req.total_questions - length result) ≡ false = ground arith in
            rw none_needed refl))
      | inr none_twice ↦ rw none_twice refl
    ]
