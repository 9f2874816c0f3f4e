-- ===== src/Account/Names.antt =====
-- The names of internal/auth/service.go: `ValidateUsername`, the suggestions and the names of guests.
-- Go strings are byte lists. `unicode_lower` is the table that `strings.ToLower` uses for a string
-- that is not ASCII; for the others it works byte by byte. `rand` is the lists of numbers drawn.
pub mod Valid
pub mod Suggested
mod Tests
use quiz.Prelude.{
  ℕ, suc, zero, ◌+◌, ◌-◌, ◌/◌, ◌%◌, Bool, true, false, not, ◌&&◌, ◌||◌, Option, none, some, List,
  [], ◌∷◌, ◌++◌, map, if◌then◌else◌, ◌==◌, nat_eq, text_eq, ltb, leb, Text, codes, contains,
  is_empty, length, take,
}

pub data NameError : Type 0 where
  too_short too_long bad_format : NameError

abbrev pub space : ℕ
space = 32

-- `strings.TrimRight(s, " ")`
unfoldable pub trim_right : Text → Text
trim_right [] = []
trim_right (c ∷ s) = let rest = trim_right s in if is_empty rest && c == space then [] else c ∷ rest

unfoldable pub is_ascii : Text → Bool
is_ascii [] = true
is_ascii (c ∷ s) = ltb c 128 && is_ascii s

unfoldable pub lower_byte : ℕ → ℕ
lower_byte c = if leb 65 c && leb c 90 then c + 32 else c

-- `strings.ToLower`
unfoldable pub to_lower : (Text → Text) → Text → Text
unfolding is_ascii lower_byte
to_lower unicode_lower s = if is_ascii s then map lower_byte s else unicode_lower s

-- The class `[a-z0-9_]`.
unfoldable pub name_byte : ℕ → Bool
name_byte c = (leb 97 c && leb c 122) || ((leb 48 c && leb c 57) || c == 95)

unfoldable pub all_name_bytes : Text → Bool
unfolding name_byte
all_name_bytes [] = true
all_name_bytes (c ∷ s) = name_byte c && all_name_bytes s

-- `usernameRegex`, which wants one byte at least.
unfoldable pub matches_username : Text → Bool
unfolding all_name_bytes
matches_username s = not (is_empty s) && all_name_bytes s

abbrev pub min_username_length : ℕ
min_username_length = 3

abbrev pub max_username_length : ℕ
max_username_length = 10

-- `none` for a valid name.
unfoldable pub validate_username : (Text → Text) → Text → Option NameError
unfolding trim_right to_lower matches_username
validate_username unicode_lower name =
    let username = trim_right name in
    if ltb (length username) min_username_length
    then some too_short
    else if ltb max_username_length (length username)
    then some too_long
    else if not (matches_username (to_lower unicode_lower username))
    then some bad_format
    else none

-- The name that is looked up and stored.
unfoldable pub normal_name : (Text → Text) → Text → Text
unfolding trim_right to_lower
normal_name unicode_lower name = trim_right (to_lower unicode_lower name)

-- `%d` of a number below 1000.
pub sprintf_d : ℕ → Text
sprintf_d n =
    if ltb n 10
    then (48 + n) ∷ []
    else if ltb n 100
    then (48 + n / 10) ∷ (48 + n % 10) ∷ []
    else (48 + n / 100) ∷ (48 + n / 10 % 10) ∷ (48 + n % 10) ∷ []

pub candidate_of : Text → ℕ → Text
unfolding sprintf_d
candidate_of username i = username ++ (95 ∷ sprintf_d i)

-- The loop over 1, 2, …, 100: `rounds` are left, `i` is the next number. `free` tells whether the
-- lookup of a name fails.
pub try_numbers : (Text → Bool) → Text → ℕ → ℕ → List Text → List Text
unfolding candidate_of
try_numbers free username zero i suggestions = suggestions
try_numbers free username (suc rounds) i suggestions =
    let candidate = candidate_of username i in
    let found = if free candidate then suggestions ++ candidate ∷ [] else suggestions in
    let rest = try_numbers free username rounds (i + 1) found in
    if leb 3 (length found) then found else rest

-- The loop over the random suffixes; `none` means that the given draws ran out.
pub try_draws : (Text → Bool) → Text → List ℕ → List Text → Option (List Text)
unfolding candidate_of
try_draws free username [] suggestions =
    if ltb (length suggestions) 3 then none else some suggestions
try_draws free username (r ∷ draws) suggestions =
    let candidate = candidate_of username (r + 100) in
    let found =
      if not (contains candidate suggestions) && free candidate
      then suggestions ++ candidate ∷ []
      else suggestions in
    let rest = try_draws free username draws found in
    if ltb (length suggestions) 3 then rest else some suggestions

-- `GenerateUsernameSuggestions`; it returns no error.
pub generate_username_suggestions :
    (Text → Text) → (Text → Bool) → List ℕ → Text → Option (List Text)
unfolding normal_name try_numbers try_draws
generate_username_suggestions unicode_lower free draws name =
    let username = normal_name unicode_lower name in
    try_draws free username draws (try_numbers free username 100 1 [])

-- The draws of one attempt at a guest's name: how many characters more than six, and which.
pub record Attempt : Type 0 where
  pub extra : ℕ
  pub picks : ℕ → ℕ

-- The byte of `chars` at an index.
unfoldable pub suffix_char : ℕ → ℕ
suffix_char i = if ltb i 26 then 97 + i else 48 + (i - 26)

unfoldable pub suffix_of : (ℕ → ℕ) → ℕ → ℕ → Text
unfolding suffix_char
suffix_of picks j zero = []
suffix_of picks j (suc n) = suffix_char (picks j) ∷ suffix_of picks (j + 1) n

unfoldable pub guest_name : Attempt → Text
unfolding suffix_of
guest_name a = codes "guest_" ++ suffix_of a.picks 0 (6 + a.extra)

-- The loop of `generateGuestUsername`: the first name that is free.
unfoldable pub first_free : (Text → Bool) → List Attempt → Option Text
unfolding guest_name
first_free free [] = none
first_free free (a ∷ attempts) =
    let rest = first_free free attempts in if free (guest_name a) then some (guest_name a) else rest

abbrev max_attempts : ℕ
max_attempts = 50

unfoldable pub generate_guest_username : (Text → Bool) → List Attempt → Option Text
unfolding first_free
generate_guest_username free attempts = first_free free (take max_attempts attempts)
