-- ===== src/Match/Finalize/Saved.antt =====
-- What a successful `FinalizeMatch` saves, read off the list of what it asks for.
use quiz.Prelude.{
  ℕ, ◌≡◌, true, some, List, [], ◌∷◌, ◌++◌, ℤ, All, contains, is_some, if◌then◌else◌, int_eq,
  text_eq,
}
use quiz.Scoring.{AnswerRecord, ScoringConfig, compute_final_score}
use quiz.Scoring.Float.{Float64}
use quiz.Match.{QuestionPackItem, PlayerState, PlayerStatus}
use quiz.Match.Answering.{orders}
use quiz.Match.Answering.Submit.{pack_orders}
use quiz.Match.Finalize.{Action, completes_match, db_finalizes, stores, count_correct}

-- What the actions of one kind carry, in order.
abbrev pub carried {κ} : {A : Type 0} {X : Type κ} → (A → List X) → List A → List X
carried f [] = []
carried f (a ∷ actions) = f a ++ carried f actions

-- The states that are written to Postgres, those that are written to Redis, and the completions.
abbrev pub in_postgres : {F : Type 0} → Action F → List (PlayerState F)
in_postgres (db_finalizes s) = s ∷ []
in_postgres _ = []

abbrev pub in_redis : {F : Type 0} → Action F → List (PlayerState F)
in_redis (stores s) = s ∷ []
in_redis _ = []

abbrev pub completions : {F : Type 0} → Action F → List (Unit {0})
completions completes_match = tt ∷ []
completions _ = []

module _ (fl : Float64) (cfg : ScoringConfig fl.F) where
  open fl use {F}

  -- The final state of a player: the answers begin with those given, there is one with the order of
  -- each question, none that is added is right, the score is that of these answers, and the status
  -- is that of a player who has left early or not.
  abbrev IsFinalOf : ℤ → List QuestionPackItem → PlayerState F → PlayerState F → Type 0
  IsFinalOf timeout questions state final =
      (final.user_id ≡ state.user_id)
      × ((extra : List AnswerRecord) × (final.answers ≡ state.answers ++ extra))
      × All (λ o. contains o (orders final.answers) ≡ true) (pack_orders questions)
      × (count_correct final.answers ≡ count_correct state.answers)
      × ((clock : ℕ → ℕ) × (final.final_score
            ≡ some (compute_final_score fl cfg final.answers timeout clock).0))
      × (final.status
          ≡ (if is_some state.left_at then PlayerStatus.left_early else PlayerStatus.completed))

  abbrev pub AreFinalOf :
      ℤ → List QuestionPackItem → List (PlayerState F) → List (PlayerState F) → Type 0
  AreFinalOf timeout questions [] [] = Unit
  AreFinalOf timeout questions [] (f ∷ finals) = ⊥
  AreFinalOf timeout questions (s ∷ states) [] = ⊥
  AreFinalOf timeout questions (s ∷ states) (f ∷ finals) =
      IsFinalOf timeout questions s f × AreFinalOf timeout questions states finals
