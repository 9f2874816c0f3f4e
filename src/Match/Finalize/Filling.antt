-- ===== src/Match/Finalize/Filling.antt =====
-- The answers that `FinalizeMatch` scores: one for every question.
use mathlib.Core.List.{map-append, append-nil, append_assoc}
use quiz.Prelude.{
  ℕ, ◌+◌, ◌≡◌, refl, sym, ap, subst, ◌∙◌, true, false, not, ◌&&◌, List, [], ◌∷◌, ◌++◌,
  if◌then◌else◌, int_eq, arith, ℤ, All, All-append, contains, contains-append, Distinct,
  Distinct-append, length, length-map, length-le_of_Distinct, Bool-cases, inl, inr, beq_self,
  int_beq_iff,
}
use quiz.Scoring.{AnswerRecord}
use quiz.Match.{QuestionPackItem}
use quiz.Match.Answering.{orders}
use quiz.Match.Answering.Submit.{IsProper, pack_orders, genuine-orders}
use quiz.Match.Finalize.{missing_answer, fill_missing, count_correct}

-- The answers that are added.
pub added : List ℤ → (ℕ → ℕ) → ℕ → List QuestionPackItem → List AnswerRecord
added answered clock i [] = []
added answered clock i (q ∷ questions) =
    let rest = added answered clock (i + 1) questions in
    if contains q.order answered then rest else missing_answer q (clock i) ∷ rest

pub fill_missing-eq-added :
    (answered : List ℤ) (clock : ℕ → ℕ) (i : ℕ) (questions : List QuestionPackItem)
    (answers : List AnswerRecord)
    → fill_missing answered clock i questions answers ≡ answers ++ added answered clock i questions
unfolding fill_missing added
fill_missing-eq-added answered clock i [] answers = sym (append-nil answers)
fill_missing-eq-added answered clock i (q ∷ questions) answers =
    elim (Bool-cases (contains q.order answered)) [
      | inl old ↦ rw old (fill_missing-eq-added answered clock (i + 1) questions answers)
      | inr new ↦ rw new (
          fill_missing-eq-added answered clock (i + 1) questions
            (answers ++ missing_answer q (clock i) ∷ [])
          ∙ append_assoc answers (missing_answer q (clock i) ∷ [])
              (added answered clock (i + 1) questions))
    ]

-- The orders that are added: those of the questions that are not among the answered ones.
contains-added :
    (answered : List ℤ) (clock : ℕ → ℕ) (i : ℕ) (questions : List QuestionPackItem) (o : ℤ)
    → contains o (orders (added answered clock i questions))
      ≡ (not (contains o answered) && contains o (pack_orders questions))
unfolding added missing_answer
contains-added answered clock i [] o = ground arith
contains-added answered clock i (q ∷ questions) o = elim (Bool-cases (contains q.order answered)) [
  | inl old ↦ ground (
    arith,
    contains-added answered clock (i + 1) questions o,
    int_beq_iff q.order o,
    ap (λ x. contains x answered) {x = q.order} {y = o},
  )
  | inr new ↦ ground (
    arith,
    contains-added answered clock (i + 1) questions o,
    int_beq_iff q.order o,
    ap (λ x. contains x answered) {x = q.order} {y = o},
  )
]

added-Distinct :
    (answered : List ℤ) (clock : ℕ → ℕ) (i : ℕ) (questions : List QuestionPackItem)
    → Distinct (pack_orders questions)
    → Distinct (orders (added answered clock i questions))
unfolding added missing_answer
added-Distinct answered clock i [] d = tt
added-Distinct answered clock i (q ∷ questions) d = elim (Bool-cases (contains q.order answered)) [
  | inl old ↦ rw old (added-Distinct answered clock (i + 1) questions d.1)
  | inr new ↦ rw new (
    ground (arith, contains-added answered clock (i + 1) questions q.order),
    added-Distinct answered clock (i + 1) questions d.1,
  )
]

added_apart :
    (clock : ℕ → ℕ) (questions : List QuestionPackItem) (answered os : List ℤ)
    → All (λ o. contains o answered ≡ true) os
    → All (λ o. contains o (orders (added answered clock 0 questions)) ≡ false) os
added_apart clock questions answered [] h = tt
added_apart clock questions answered (o ∷ os) h = (
  ground (arith, contains-added answered clock 0 questions o),
  added_apart clock questions answered os h.1,
)

-- Every value of a list is in it.
pub All-contained : (os rest : List ℤ) → All (λ o. contains o (rest ++ os) ≡ true) os
All-contained [] rest = tt
All-contained (o ∷ os) rest = (
  ground (arith, contains-append o rest (o ∷ os), beq_self o),
  subst (λ l. All (λ x. contains x l ≡ true) os) (append_assoc rest (o ∷ []) os)
      (All-contained os (rest ++ o ∷ [])),
)

pub covered :
    (clock : ℕ → ℕ) (all questions : List QuestionPackItem) (answers : List AnswerRecord)
    → All (λ o. contains o (pack_orders all) ≡ true) (pack_orders questions)
    → All
        (λ o. contains o (orders (answers ++ added (orders answers) clock 0 all)) ≡ true)
        (pack_orders questions)
covered clock all [] answers h = tt
covered clock all (q ∷ questions) answers h =
    let extra = added (orders answers) clock 0 all in
    (
      rw (map-append (λ (a : AnswerRecord). a.question_order) answers extra) (
          ground (
            arith,
            contains-append q.order (orders answers) (orders extra),
            contains-added (orders answers) clock 0 all q.order,
          )),
      covered clock all questions answers h.1,
    )

added-within :
    (clock : ℕ → ℕ) (answered : List ℤ) (i : ℕ) (questions : List QuestionPackItem) (more : List ℤ)
    → All
        (λ o. contains o (more ++ pack_orders questions) ≡ true)
        (orders (added answered clock i questions))
unfolding added missing_answer
added-within clock answered i [] more = tt
added-within clock answered i (q ∷ questions) more =
    let rest =
      subst (λ l. All (λ o. contains o l ≡ true) (orders (added answered clock (i + 1) questions)))
        (append_assoc more (q.order ∷ []) (pack_orders questions))
        (added-within clock answered (i + 1) questions (more ++ q.order ∷ [])) in
    elim (Bool-cases (contains q.order answered)) [
      | inl old ↦ rw old rest
      | inr new ↦ rw new (
        ground (
          arith,
          contains-append q.order more (q.order ∷ pack_orders questions),
          beq_self q.order,
        ),
        rest,
      )
    ]

pub count_correct-added :
    (answered : List ℤ) (clock : ℕ → ℕ) (i : ℕ) (questions : List QuestionPackItem)
    → count_correct (added answered clock i questions) ≡ 0
unfolding added missing_answer count_correct
count_correct-added answered clock i [] = refl
count_correct-added answered clock i (q ∷ questions) =
    ground (arith, count_correct-added answered clock (i + 1) questions)

pub count_correct-append :
    (xs ys : List AnswerRecord) → count_correct (xs ++ ys) ≡ count_correct xs + count_correct ys
unfolding count_correct
count_correct-append [] ys = omega arith
count_correct-append (x ∷ xs) ys = ground (arith, count_correct-append xs ys)

-- If the orders of the pack are distinct and the player's answers are proper, `FinalizeMatch` scores
-- exactly one answer for each question: the answers given come first and unchanged, the others are
-- added as wrong, no order stands twice, and the number of right answers stays the same.
pub fill_missing_lem :
    (clock : ℕ → ℕ) (questions : List QuestionPackItem) (answers : List AnswerRecord)
    → Distinct (pack_orders questions)
    → IsProper questions answers
    → let full = fill_missing (orders answers) clock 0 questions answers in
      (length full ≡ length questions)
      × Distinct (orders full)
      × All (λ o. contains o (orders full) ≡ true) (pack_orders questions)
      × (count_correct full ≡ count_correct answers)
      × ((extra : List AnswerRecord) × (full ≡ answers ++ extra))
fill_missing_lem clock questions answers d v =
    let extra = added (orders answers) clock 0 questions in
    let split = map-append (λ (a : AnswerRecord). a.question_order) answers extra in
    let distinct =
      Distinct-append (orders answers) (orders extra) v.once
        (added-Distinct (orders answers) clock 0 questions d)
        (added_apart clock questions (orders answers) (orders answers)
          (All-contained (orders answers) [])) in
    let distinct' = subst Distinct (sym split) distinct in
    let within =
      All-append (λ o. contains o (pack_orders questions) ≡ true) (orders answers) (orders extra)
        (genuine-orders questions answers v.genuine)
        (added-within clock (orders answers) 0 questions []) in
    let all =
      covered clock questions questions answers (All-contained (pack_orders questions) []) in
    let most =
      length-le_of_Distinct (orders (answers ++ extra)) (pack_orders questions) distinct'
        (subst (All (λ o. contains o (pack_orders questions) ≡ true)) (sym split) within) in
    let least = length-le_of_Distinct (pack_orders questions) (orders (answers ++ extra)) d all in
    rw (fill_missing-eq-added (orders answers) clock 0 questions answers) (
      omega (
        arith,
        most,
        least,
        length-map (λ (a : AnswerRecord). a.question_order) (answers ++ extra),
        length-map (λ (q : QuestionPackItem). q.order) questions,
      ),
      distinct',
      all,
      omega (
        arith,
        count_correct-append answers extra,
        count_correct-added (orders answers) clock 0 questions,
      ),
      (extra, refl),
    )
