-- ===== src/Match/Answering/Submit.antt =====
-- What `SubmitAnswer` does on every branch, and what it keeps true of the stored state.
use mathlib.Core.List.{map-append}
use quiz.Prelude.{
  ℕ, ◌≤◌, ◌≡◌, ◌≢◌, ◌⊎◌, inl, inr, refl, ap, subst, Bool, true, false, Option, none, some, List, [],
  ◌∷◌, ◌++◌, map, arith, ◌==◌, text_eq, int_eq, int_beq_iff, Text, ℤ, All, All-append, Result, ok,
  err, or_fail, contains, Distinct, Distinct-append, All-contains-false, length, length-map,
  length-le_of_Distinct, Option-cases, Bool-cases,
}
use quiz.Scoring.{AnswerRecord, ScoringConfig}
use quiz.Scoring.Float.{Float64}
use quiz.Match.{QuestionPackItem, PlayerState, LockReply}
use quiz.Match.Answering.{
  SubmitError, acquire_lock, player_state_not_found, questions_not_found, invalid_token,
  already_answered, store_state, Action, locks, unlocks, stores, Replies, Submission, find_question,
  orders, answer_record, checked_state, store_checked, with_lock, submit_answer,
}

-- An answer as `SubmitAnswer` records it: its token is that of a question of the pack, its order
-- is that question's, and it is marked right exactly if it is that question's answer.
abbrev IsGenuine : List QuestionPackItem → AnswerRecord → Type 0
IsGenuine questions a =
    (q : QuestionPackItem) × (find_question a.question_token questions ≡ some q)
    × (a.question_order ≡ q.order)
    × (a.is_correct ≡ (a.answer == q.correct_answer))

pub record IsProper (questions : List QuestionPackItem) (answers : List AnswerRecord) : Type 0 where
  pub once : Distinct (orders answers)
  pub genuine : All (IsGenuine questions) answers

abbrev pub pack_orders : List QuestionPackItem → List ℤ
pack_orders = map λ q. q.order

find_question-order :
    (token : Text) (questions : List QuestionPackItem) (q : QuestionPackItem)
    → find_question token questions ≡ some q
    → contains q.order (pack_orders questions) ≡ true
unfolding find_question
find_question-order token [] q h = absurd (cc)
find_question-order token (x ∷ questions) q h = ground (
  arith,
  find_question-order token questions q,
  int_beq_iff x.order q.order,
  ap (λ (y : QuestionPackItem). y.order),
)

pub genuine-orders :
    (questions : List QuestionPackItem) (answers : List AnswerRecord)
    → All (IsGenuine questions) answers
    → All (λ o. contains o (pack_orders questions) ≡ true) (orders answers)
genuine-orders questions [] g = tt
genuine-orders questions (a ∷ answers) g =
    let (q, found, same, _) = g.0 in
    (
      rw same (find_question-order a.question_token questions q found),
      genuine-orders questions answers g.1,
    )

-- There are no more answers than questions.
IsProper-length :
    (questions : List QuestionPackItem) (answers : List AnswerRecord)
    → IsProper questions answers
    → length answers ≤ length questions
IsProper-length questions answers v = omega (
  arith,
  length-map (λ (a : AnswerRecord). a.question_order) answers,
  length-map (λ (q : QuestionPackItem). q.order) questions,
  length-le_of_Distinct (orders answers) (pack_orders questions) v.once
      (genuine-orders questions answers v.genuine),
)

module _ (fl : Float64) (cfg : ScoringConfig fl.F) where
  -- What a submission that passes the checks has found, and the state that it will store.
  abbrev pub Passes :
      Replies fl.F
      → Submission
      → ℕ
      → PlayerState fl.F
      → List QuestionPackItem
      → QuestionPackItem
      → PlayerState fl.F
      → Type 0
  Passes replies sub now state questions q after =
      (replies.player_state ≡ some (some state))
      × (replies.questions ≡ some questions)
      × (find_question sub.question_token questions ≡ some q)
      × (contains q.order (orders state.answers) ≡ false)
      × (after ≡ record state {
        answers =
            state.answers ++ answer_record fl cfg state.answers q replies.summary sub now ∷ [];
      })

  or_fail_ok : {E A : Type 0} (o : Option A) (e : E) (a : A) → or_fail o e ≡ ok a → o ≡ some a
  or_fail_ok none e a h = absurd (cc)
  or_fail_ok (some x) e a h = ground arith

  checked_state-Passes :
      (replies : Replies fl.F) (sub : Submission) (now : ℕ) (after : PlayerState fl.F)
      → checked_state fl cfg replies sub now ≡ ok after
      → (state : PlayerState fl.F) × (questions : List QuestionPackItem) × (q : QuestionPackItem)
        × Passes replies sub now state questions q after
  unfolding checked_state
  checked_state-Passes replies sub now after h = elim (Option-cases replies.player_state) [
    | inl e ↦ absurd (ground arith)
    | inr (none, e) ↦ absurd (ground arith)
    | inr (some state, e) ↦ elim (Option-cases replies.questions) [
      | inl e' ↦ absurd (ground arith)
      | inr (questions, e') ↦ elim (Option-cases (find_question sub.question_token questions)) [
        | inl e'' ↦ absurd (ground arith)
        | inr (q, e'') ↦ (state, questions, q, (e, e', e'', ground arith, ground arith))
      ]
    ]
  ]

  -- A success has taken the lock, passed the checks and stored.
  locked_ok :
      (lock : LockReply) (stored : Bool) (res : Result SubmitError (PlayerState fl.F))
      → (with_lock fl cfg lock (store_checked fl cfg stored res)).0 ≡ ok tt
      → (after : PlayerState fl.F) × (res ≡ ok after)
        × ((with_lock fl cfg lock (store_checked fl cfg stored res)).1
            ≡ locks ∷ stores after ∷ unlocks ∷ [])
  unfolding with_lock store_checked
  locked_ok LockReply.acquired true (ok after) h = (after, refl, refl)
  locked_ok LockReply.acquired false (ok after) h = absurd (cc)
  locked_ok LockReply.acquired stored (err e) h = absurd (cc)
  locked_ok LockReply.held stored res h = absurd (cc)
  locked_ok LockReply.failed stored res h = absurd (cc)

  -- What has been read when the checks end with an error.
  abbrev Refused : Replies fl.F → Submission → SubmitError → Type 0
  Refused replies sub player_state_not_found =
      (state : PlayerState fl.F) → replies.player_state ≢ some (some state)
  Refused replies sub questions_not_found =
      (state : PlayerState fl.F) × (replies.player_state ≡ some (some state))
      × ((replies.questions ≡ none) ⊎ (replies.questions ≡ some []))
  Refused replies sub invalid_token =
      (questions : List QuestionPackItem) × (replies.questions ≡ some questions)
      × (find_question sub.question_token questions ≡ none)
  Refused replies sub already_answered =
      (state : PlayerState fl.F) × (questions : List QuestionPackItem) × (q : QuestionPackItem)
      × (replies.player_state ≡ some (some state))
      × (replies.questions ≡ some questions)
      × (find_question sub.question_token questions ≡ some q)
      × (contains q.order (orders state.answers) ≡ true)
  Refused replies sub acquire_lock = ⊥
  Refused replies sub store_state = ⊥

  Refused-subst :
      (replies : Replies fl.F) (sub : Submission) (x e : SubmitError)
      → Refused replies sub x
      → x ≡ e
      → Refused replies sub e
  Refused-subst replies sub x e r same = subst (Refused replies sub) same r

  checked_state-Refused :
      (replies : Replies fl.F) (sub : Submission) (now : ℕ) (e : SubmitError)
      → checked_state fl cfg replies sub now ≡ err e
      → Refused replies sub e
  unfolding checked_state
  checked_state-Refused replies sub now e h = elim (Option-cases replies.player_state) [
    | inl p ↦
        Refused-subst replies sub player_state_not_found e (λ state k. absurd (cc)) (ground arith)
    | inr (none, p) ↦
        Refused-subst replies sub player_state_not_found e (λ state k. absurd (cc)) (ground arith)
    | inr (some state, p) ↦ elim (Option-cases replies.questions) [
      | inl p' ↦ Refused-subst replies sub questions_not_found e (state, p, inl p') (ground arith)
      | inr ([], p') ↦
          Refused-subst replies sub questions_not_found e (state, p, inr p') (ground arith)
      | inr (x ∷ questions, p') ↦
          elim (Option-cases (find_question sub.question_token (x ∷ questions))) [
            | inl p'' ↦
                Refused-subst replies sub invalid_token e (x ∷ questions, p', p'') (ground arith)
            | inr (q, p'') ↦ elim (Bool-cases (contains q.order (orders state.answers))) [
              | inl old ↦
                  Refused-subst replies sub already_answered e
                    (state, x ∷ questions, q, p, p', p'', old) (ground arith)
              | inr new ↦ absurd (ground arith)
            ]
          ]
    ]
  ]

  locked_err :
      (lock : LockReply) (stored : Bool) (res : Result SubmitError (PlayerState fl.F))
      (e : SubmitError)
      → (with_lock fl cfg lock (store_checked fl cfg stored res)).0 ≡ err e
      → let actions = (with_lock fl cfg lock (store_checked fl cfg stored res)).1 in
        ((e ≡ acquire_lock) × (lock ≢ LockReply.acquired) × (actions ≡ locks ∷ []))
        ⊎ ((lock ≡ LockReply.acquired) × (res ≡ err e) × (actions ≡ locks ∷ unlocks ∷ []))
        ⊎ ((e ≡ store_state)
            × (stored ≡ false)
            × ((after : PlayerState fl.F) × (res ≡ ok after)
                × (actions ≡ locks ∷ stores after ∷ unlocks ∷ [])))
  unfolding with_lock store_checked
  locked_err LockReply.acquired true (ok after) e h = absurd (cc)
  locked_err LockReply.acquired false (ok after) e h =
      inr (inr (ground arith, refl, (after, refl, refl)))
  locked_err LockReply.acquired stored (err e') e h = inr (inl (refl, ground arith, refl))
  locked_err LockReply.held stored res e h = inl (ground arith, λ k. cc, refl)
  locked_err LockReply.failed stored res e h = inl (ground arith, λ k. cc, refl)

  -- Why a submission has failed, and what it has asked of Redis: the lock alone if it was not taken,
  -- the lock and its release if a check has failed, and a store in between if that has failed.
  abbrev pub Failed : Replies fl.F → Submission → ℕ → SubmitError → List (Action fl.F) → Type 0
  Failed replies sub now e actions =
      ((e ≡ acquire_lock) × (replies.lock ≢ LockReply.acquired) × (actions ≡ locks ∷ []))
      ⊎ ((replies.lock ≡ LockReply.acquired)
          × Refused replies sub e
          × (actions ≡ locks ∷ unlocks ∷ []))
      ⊎ ((e ≡ store_state)
          × (replies.stored ≡ false)
          × ((state : PlayerState fl.F) × (questions : List QuestionPackItem)
              × (q : QuestionPackItem) × (after : PlayerState fl.F) × Passes replies sub now state
                  questions q after
              × (actions ≡ locks ∷ stores after ∷ unlocks ∷ [])))

  -- `SubmitAnswer` succeeds only with the lock, a stored player state, the question of the token and
  -- no earlier answer to that question; then it has stored exactly the state with the new answer
  -- appended, between taking the lock and releasing it.
  pub submit_answer_ok :
      (replies : Replies fl.F) (sub : Submission) (now : ℕ)
      → (submit_answer fl cfg replies sub now).0 ≡ ok tt
      → (state : PlayerState fl.F) × (questions : List QuestionPackItem) × (q : QuestionPackItem)
        × (after : PlayerState fl.F) × Passes replies sub now state questions q after
        × ((submit_answer fl cfg replies sub now).1 ≡ locks ∷ stores after ∷ unlocks ∷ [])
  unfolding submit_answer
  submit_answer_ok replies sub now h =
      let (after, e, done) =
        locked_ok replies.lock replies.stored (checked_state fl cfg replies sub now) h in
      let (state, questions, q, passes) = checked_state-Passes replies sub now after e in
      (state, questions, q, after, passes, done)

  -- Each error of `SubmitAnswer` says what was found: no lock; no state of the player; a state but no
  -- questions, or an empty list of them; no question with the token; a question whose order is
  -- among those of the stored answers; or, with all checks passed, a store that failed. Whenever the
  -- lock was taken it has been released, and the only new state it has tried to store is that of the
  -- last case.
  pub submit_answer_err :
      (replies : Replies fl.F) (sub : Submission) (now : ℕ) (e : SubmitError)
      → (submit_answer fl cfg replies sub now).0 ≡ err e
      → Failed replies sub now e (submit_answer fl cfg replies sub now).1
  unfolding submit_answer
  submit_answer_err replies sub now e h =
      let res = checked_state fl cfg replies sub now in
      elim (locked_err replies.lock replies.stored res e h) [
        | inl unlocked ↦ inl unlocked
        | inr (inl (taken, bad, asked)) ↦
            inr (inl (taken, checked_state-Refused replies sub now e bad, asked))
        | inr (inr (is_store, lost, (after, good, asked))) ↦
            let (state, questions, q, passes) = checked_state-Passes replies sub now after good in
            inr (inr (is_store, lost, (state, questions, q, after, passes, asked)))
      ]

  -- `SubmitAnswer` keeps every question answered at most once and every answer genuine.
  submit_answer-IsProper :
      (replies : Replies fl.F) (sub : Submission) (now : ℕ) (state after : PlayerState fl.F)
      (questions : List QuestionPackItem) (q : QuestionPackItem)
      → Passes replies sub now state questions q after
      → IsProper questions state.answers
      → IsProper questions after.answers
  unfolding answer_record
  submit_answer-IsProper replies sub now state after questions q p v =
      let a = answer_record fl cfg state.answers q replies.summary sub now in
      rw p.4 (record {
        once = rw (map-append (λ (x : AnswerRecord). x.question_order) state.answers (a ∷ [])) (
            Distinct-append (orders state.answers) (q.order ∷ []) v.once (refl, tt)
              (All-contains-false q.order (orders state.answers) p.3));
        genuine =
            All-append (IsGenuine questions) state.answers (a ∷ []) v.genuine
              ((q, p.2, refl, refl), tt);
      })

  -- One successful submission of a player of a match with the given pack.
  pub data Answers (questions : List QuestionPackItem) (s t : PlayerState fl.F) : Type 0 where
    answers :
        (replies : Replies fl.F) (sub : Submission) (now : ℕ)
        → replies.player_state ≡ some (some s)
        → replies.questions ≡ some questions
        → (submit_answer fl cfg replies sub now).1 ≡ locks ∷ stores t ∷ unlocks ∷ []
        → (submit_answer fl cfg replies sub now).0 ≡ ok tt
        → Answers questions s t

  pub data Played (questions : List QuestionPackItem) (s : PlayerState fl.F)
      : PlayerState fl.F → Type 0 where
    none_yet : Played questions s s
    one_more :
        {t u : PlayerState fl.F}
        → Played questions s t
        → Answers questions t u
        → Played questions s u

  Answers-IsProper :
      (questions : List QuestionPackItem) (s t : PlayerState fl.F)
      → Answers questions s t
      → IsProper questions s.answers
      → IsProper questions t.answers
  Answers-IsProper questions s t (answers replies sub now ps qs done e) v =
      let (state, questions', q, after, passes, done') = submit_answer_ok replies sub now e in
      let same_state : state ≡ s = ground arith in
      let same_pack : questions' ≡ questions = ground arith in
      let same_after : after ≡ t = ground arith in
      subst (λ (x : PlayerState fl.F). IsProper questions x.answers) same_after
        (submit_answer-IsProper replies sub now s after questions q
          (subst (λ (x : PlayerState fl.F). Passes replies sub now x questions q after) same_state
            (subst (λ x. Passes replies sub now state x q after) same_pack passes))
          v)

  Played-IsProper :
      (questions : List QuestionPackItem) (s : PlayerState fl.F) {t : PlayerState fl.F}
      → IsProper questions s.answers
      → Played questions s t
      → IsProper questions t.answers
  Played-IsProper questions s v none_yet = v
  Played-IsProper questions s v (one_more {t = t} {u = u} p a) =
      Answers-IsProper questions t u a (Played-IsProper questions s v p)

  -- From a player state without answers, any sequence of successful submissions leaves a state in
  -- which every question is answered at most once, every answer carries the order of the question
  -- that its token names and is marked right exactly if it is that question's answer, and there are
  -- no more answers than questions.
  pub Played-lem :
      (questions : List QuestionPackItem) (s : PlayerState fl.F) {t : PlayerState fl.F}
      → s.answers ≡ []
      → Played questions s t
      → IsProper questions t.answers × (length t.answers ≤ length questions)
  Played-lem questions s {t} e p =
      let v = Played-IsProper questions s (rw e (record { once = tt; genuine = tt })) p in
      (v, IsProper-length questions t.answers v)
