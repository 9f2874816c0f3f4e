-- ===== src/Scoring/Streaks.antt =====
-- The loop of `ComputeFinalScore` against independent descriptions of what it counts.
use Prim.Native.Nat.{max}
use mathlib.Core.List.{reverse, reverse-cons, append_assoc, append-nil}
use quiz.Prelude.{
  ℕ, ◌+◌, ◌≡◌, refl, sym, ap, ◌∙◌, true, false, List, [], ◌∷◌, ◌++◌, arith, if◌then◌else◌,
  Bool-cases, inl, inr, ℤ, pos, ◌+ℤ◌, +ℤ_parts, eq_of_parts, add-pos_zero, pos_zero-add, +ℤ_assoc,
  length, ltb,
}
use quiz.Scoring.{
  AnswerRecord, Tally, start_tally, count_streak, streak_at_answer, tally_answer, tally_answers,
  calculate_score, streak_multiplier, remaining, compute_final_score, ScoringConfig,
}
use quiz.Scoring.Float.{Float64}

-- The number of right answers.
abbrev pub correct_total : List AnswerRecord → ℕ
correct_total [] = 0
correct_total (a ∷ answers) = (if a.is_correct then 1 else 0) + correct_total answers

-- The length of the longest run of right answers, by looking at every end of a run; the list is
-- read latest first.
abbrev pub longest_run : List AnswerRecord → ℕ
longest_run [] = 0
longest_run (a ∷ before) = max (count_streak (a ∷ before)) (longest_run before)

-- What the loop variables hold after the answers `before`, latest first.
pub record IsTally (t : Tally) : Type 0 where
  pub current : t.current_streak ≡ count_streak t.before
  pub correct : t.correct_count ≡ correct_total t.before
  pub longest : t.max_streak ≡ longest_run t.before

start-IsTally : IsTally start_tally
unfolding count_streak
start-IsTally = record { current = refl; correct = refl; longest = refl }

correct_total-append :
    (xs ys : List AnswerRecord) → correct_total (xs ++ ys) ≡ correct_total xs + correct_total ys
correct_total-append [] ys = omega arith
correct_total-append (x ∷ xs) ys = omega (arith, correct_total-append xs ys)

correct_total-reverse : (xs : List AnswerRecord) → correct_total (reverse xs) ≡ correct_total xs
correct_total-reverse [] = refl
correct_total-reverse (x ∷ xs) =
    rw (reverse-cons x xs)
      (omega (arith, correct_total-append (reverse xs) (x ∷ []), correct_total-reverse xs))

module _ (fl : Float64) where
  open fl use {F}

  tally_answer-IsTally :
      (cfg : ScoringConfig F) (timeout : ℤ) (now : ℕ) (ans : AnswerRecord) (t : Tally)
      → IsTally t
      → IsTally (tally_answer fl cfg timeout now ans t)
  unfolding tally_answer count_streak
  tally_answer-IsTally cfg timeout now ans t v = ground arith

  tally_answers-before :
      (cfg : ScoringConfig F) (timeout : ℤ) (clock : ℕ → ℕ) (i : ℕ) (answers : List AnswerRecord)
      (t : Tally)
      → (tally_answers fl cfg timeout clock i answers t).before ≡ reverse answers ++ t.before
  unfolding tally_answers tally_answer
  tally_answers-before cfg timeout clock i [] t = refl
  tally_answers-before cfg timeout clock i (ans ∷ answers) t =
      let t' = tally_answer fl cfg timeout (clock i) ans t in
      tally_answers-before cfg timeout clock (i + 1) answers t'
      ∙ (sym (append_assoc (reverse answers) (ans ∷ []) t.before)
          ∙ ap (λ l. l ++ t.before) (sym (reverse-cons ans answers)))

  tally_answers-IsTally :
      (cfg : ScoringConfig F) (timeout : ℤ) (clock : ℕ → ℕ) (i : ℕ) (answers : List AnswerRecord)
      (t : Tally)
      → IsTally t
      → IsTally (tally_answers fl cfg timeout clock i answers t)
  unfolding tally_answers
  tally_answers-IsTally cfg timeout clock i [] t v = v
  tally_answers-IsTally cfg timeout clock i (ans ∷ answers) t v =
      tally_answers-IsTally cfg timeout clock (i + 1) answers
        (tally_answer fl cfg timeout (clock i) ans t)
        (tally_answer-IsTally cfg timeout (clock i) ans t v)

  -- The score of the answers to come after a run of `run` right answers: a right answer scores with
  -- the streak that it extends, a wrong one scores nothing and ends the run.
  pub running_total : ScoringConfig F → ℤ → (ℕ → ℕ) → ℕ → ℕ → List AnswerRecord → ℤ
  running_total cfg timeout clock i run [] = pos 0
  running_total cfg timeout clock i run (a ∷ answers) =
      let extended =
        calculate_score fl cfg true (remaining timeout a.submitted_at (clock i)) timeout
          (pos (run + 1))
        +ℤ running_total cfg timeout clock (i + 1) (run + 1) answers in
      let broken = running_total cfg timeout clock (i + 1) 0 answers in
      if a.is_correct then extended else broken

  tally_answer-right :
      (cfg : ScoringConfig F) (timeout : ℤ) (now : ℕ) (a : AnswerRecord) (t : Tally)
      → a.is_correct ≡ true
      → ((tally_answer fl cfg timeout now a t).total_score
          ≡ t.total_score
            +ℤ calculate_score fl cfg true
                (remaining timeout a.submitted_at now)
                timeout
                (pos (count_streak t.before + 1)))
        × (count_streak (tally_answer fl cfg timeout now a t).before ≡ count_streak t.before + 1)
  unfolding tally_answer streak_at_answer count_streak
  tally_answer-right cfg timeout now a t h = (ground arith, ground arith)

  tally_answer-wrong :
      (cfg : ScoringConfig F) (timeout : ℤ) (now : ℕ) (a : AnswerRecord) (t : Tally)
      → a.is_correct ≡ false
      → ((tally_answer fl cfg timeout now a t).total_score ≡ t.total_score)
        × (count_streak (tally_answer fl cfg timeout now a t).before ≡ 0)
  unfolding tally_answer count_streak calculate_score
  tally_answer-wrong cfg timeout now a t h =
      (ground (arith, add-pos_zero t.total_score), ground arith)

  tally_answers-total :
      (cfg : ScoringConfig F) (timeout : ℤ) (clock : ℕ → ℕ) (i : ℕ) (answers : List AnswerRecord)
      (t : Tally)
      → (tally_answers fl cfg timeout clock i answers t).total_score
        ≡ t.total_score +ℤ running_total cfg timeout clock i (count_streak t.before) answers
  unfolding tally_answers running_total
  tally_answers-total cfg timeout clock i [] t =
      eq_of_parts _ _ (omega (arith, +ℤ_parts t.total_score (pos 0)))
  tally_answers-total cfg timeout clock i (ans ∷ answers) t =
      let t' = tally_answer fl cfg timeout (clock i) ans t in
      tally_answers-total cfg timeout clock (i + 1) answers t' ∙ elim (Bool-cases ans.is_correct) [
        | inl right ↦
            let (total, run) = tally_answer-right cfg timeout (clock i) ans t right in
            rw (total, run)
              (ground (
                arith,
                +ℤ_assoc t.total_score
                    (calculate_score fl cfg true (remaining timeout ans.submitted_at (clock i))
                      timeout (pos (count_streak t.before + 1)))
                    (running_total cfg timeout clock (i + 1) (count_streak t.before + 1) answers),
              ))
        | inr wrong ↦
            let (total, run) = tally_answer-wrong cfg timeout (clock i) ans t wrong in
            rw (total, run) (ground arith)
      ]

  -- For at least one answer, `ComputeFinalScore` returns the sum of the scores in which every right
  -- answer counts with the length of the run of right answers that ends in it; the accuracy is the
  -- number of right answers over that of all; and the bonus percentage is that of the longest run,
  -- or zero if no answer is right.
  pub compute_final_score_lem :
      (cfg : ScoringConfig F) (ans : AnswerRecord) (rest : List AnswerRecord) (timeout : ℤ)
      (clock : ℕ → ℕ)
      → let answers = ans ∷ rest in
        let longest = longest_run (reverse answers) in
        compute_final_score fl cfg answers timeout clock ≡ (
          running_total cfg timeout clock 0 0 answers,
          fl.div (fl.of_int (pos (correct_total answers))) (fl.of_int (pos (length answers))),
          (if ltb 0 longest then streak_multiplier fl cfg (pos longest) else fl.zero),
        )
  unfolding compute_final_score count_streak
  compute_final_score_lem cfg ans rest timeout clock =
      let answers = ans ∷ rest in
      let t = tally_answers fl cfg timeout clock 0 answers start_tally in
      let order =
        tally_answers-before cfg timeout clock 0 answers start_tally
        ∙ append-nil (reverse answers) in
      let v = tally_answers-IsTally cfg timeout clock 0 answers start_tally start-IsTally in
      let total : t.total_score ≡ running_total cfg timeout clock 0 0 answers =
        tally_answers-total cfg timeout clock 0 answers start_tally
        ∙ pos_zero-add (running_total cfg timeout clock 0 0 answers) in
      let right : t.correct_count ≡ correct_total answers =
        v.correct ∙ (ap correct_total order ∙ correct_total-reverse answers) in
      let longest : t.max_streak ≡ longest_run (reverse answers) =
        v.longest ∙ ap longest_run order in
      rw (total, right, longest)
