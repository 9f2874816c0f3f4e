-- ===== src/Account/Names/Tests.antt =====
-- The names of internal/auth/service.go on small inputs.
use quiz.Prelude.{
  ◌≤◌, ◌≡◌, refl, arith, Bool, true, false, none, some, List, [], ◌∷◌, Text, codes, text_beq, All,
  text_eq, length,
}
use quiz.Account.Names.{
  too_long, too_short, bad_format, trim_right, is_ascii, lower_byte, to_lower, name_byte,
  all_name_bytes, matches_username, validate_username, normal_name, sprintf_d, candidate_of,
  try_numbers, try_draws, generate_username_suggestions, Attempt, suffix_char, suffix_of,
  guest_name, first_free, generate_guest_username,
}
use quiz.Account.Names.Valid.{IsName, normal_name_idem}
use quiz.Account.Names.Suggested.{suggestions_refused}

-- A table that leaves every string alone; the inputs here are ASCII.
abbrev no_table : Text → Text
no_table s = s

mixed_case : normal_name no_table (codes "Quiz_Kid  ") ≡ codes "quiz_kid"
unfolding normal_name trim_right to_lower is_ascii lower_byte
mixed_case = refl

two_letters : validate_username no_table (codes "ab  ") ≡ some too_short
unfolding validate_username trim_right
two_letters = refl

inner_space : validate_username no_table (codes "a bcd") ≡ some bad_format
unfolding validate_username trim_right to_lower is_ascii lower_byte matches_username all_name_bytes
    name_byte
inner_space = refl

quiz_kid : IsName (codes "quiz_kid")
unfolding all_name_bytes name_byte
quiz_kid = (omega arith, omega arith, refl)

normal_name-idem_test :
    (validate_username no_table (codes "quiz_kid") ≡ none)
    × (normal_name no_table (codes "quiz_kid") ≡ codes "quiz_kid")
normal_name-idem_test = normal_name_idem no_table (codes "quiz_kid") quiz_kid

-- All names but one are free.
abbrev free : Text → Bool
free s = elim (text_beq s (codes "quiz_kid_2")) [ true ↦ false | false ↦ true ]

abbrev offered : List Text
offered = codes "quiz_kid_1" ∷ codes "quiz_kid_3" ∷ codes "quiz_kid_4" ∷ []

suggested : generate_username_suggestions no_table free [] (codes "Quiz_Kid") ≡ some offered
unfolding generate_username_suggestions normal_name trim_right to_lower is_ascii lower_byte
    try_numbers try_draws candidate_of sprintf_d text_beq
suggested = refl

abbrev long_offered : List Text
long_offered = codes "quiz_kids_1" ∷ codes "quiz_kids_2" ∷ codes "quiz_kids_3" ∷ []

long_suggested :
    generate_username_suggestions no_table free [] (codes "quiz_kids") ≡ some long_offered
unfolding generate_username_suggestions normal_name trim_right to_lower is_ascii lower_byte
    try_numbers try_draws candidate_of sprintf_d text_beq
long_suggested = refl

nine : 9 ≤ length (normal_name no_table (codes "quiz_kids"))
unfolding normal_name trim_right to_lower is_ascii lower_byte
nine = omega arith

suggestions_refused_example : All (λ c. validate_username no_table c ≡ some too_long) long_offered
suggestions_refused_example =
    suggestions_refused no_table free [] (codes "quiz_kids") long_offered tt nine long_suggested

abbrev attempt : Attempt
attempt = record { extra = 0; picks = λ j. j }

guest_drawn : generate_guest_username free (attempt ∷ []) ≡ some (codes "guest_abcdef")
unfolding generate_guest_username first_free guest_name suffix_of suffix_char text_beq
guest_drawn = refl
