-- ===== src/Account/Service/Tests.antt =====
-- The accounts of internal/auth/service.go on a store of one user.
use quiz.Prelude.{
  ℕ, ◌+◌, ◌*◌, ◌≤◌, ◌<◌, ◌≡◌, ◌≢◌, refl, arith, true, false, none, some, List, [], ◌∷◌, Text, codes,
  text_beq, text_beq_iff, Result, ok, err, is_ok, length,
}
use quiz.Account.{User, TokenPair, registered}
use quiz.Account.Names.{
  Attempt, trim_right, is_ascii, lower_byte, to_lower, name_byte, all_name_bytes, matches_username,
  validate_username, normal_name, suffix_char, suffix_of, guest_name, first_free,
  generate_guest_username,
}
use quiz.Account.Names.Valid.{IsName}
use quiz.Account.Tokens.{
  numeric_date, second, claims_of, or_empty, generate_access_token, generate_refresh_token,
  validate_access_token,
}
use quiz.Account.Tokens.Plain.{plain, plain-Laws}
use quiz.Account.Store.{Row, found}
use quiz.Account.Store.Single.{Held, single, single-Laws}
use quiz.Account.Service.{
  ServiceError, ResetData, not_json, user_of_reset, Outside, Times, hash_password,
  generate_token_pair, with_user, user_of_row, registered_user, guest_user, is_user, open_account,
  register, convert_guest, login, free_for_guest, create_guest, refresh_token, set_row,
  set_username, request_password_reset, change_password, reset_with, reset_password,
  email_already_registered,
}
use quiz.Account.Service.Names.{set_username_once}
use quiz.Account.Service.Sessions.{refresh_token-create_guest, login-validates, login-register}
use quiz.Account.Service.Reset.{reset_password_once}

abbrev decode : Text → ResetData
decode [] = not_json
decode (id ∷ email) = user_of_reset id

abbrev o : Outside
o = record {
  jwt = plain;
  manager = record {
    access_secret = codes "a";
    refresh_secret = codes "r";
    access_ttl = 3600 * second;
    refresh_ttl = 7200 * second;
    issuer = [];
  };
  uuid_text = λ n. n ∷ [];
  scan_uuid = λ n. some n;
  unicode_lower = λ s. s;
  bcrypt = λ p. some p;
  bcrypt_matches = text_beq;
  has_redis = true;
  has_email = true;
  encode_reset = λ id email. id ∷ email;
  decode_reset = decode;
  send_email = λ email token. true;
}

differ : o.manager.access_secret ≢ o.manager.refresh_secret
differ e = absurd (ground arith)

abbrev times : Times
times = record { access_at = 0; refresh_at = 0 }

abbrev email : Text
email = codes "p@q"

abbrev password : Text
password = codes "password"

abbrev empty : Held
empty = record { user = none; keys = [] }

abbrev row : Row
row = record {
  user_id = 7;
  email = some email;
  password_hash = some password;
  username = none;
  user_type = registered;
}

abbrev one : Held
one = record { user = some row; keys = [] }

abbrev tokens_of : User → TokenPair
tokens_of user = record {
  access_token = or_empty (generate_access_token plain o.uuid_text o.manager 0 user);
  refresh_token = or_empty (generate_refresh_token plain o.uuid_text o.manager 0 user);
  expires_in = 3600;
}

abbrev new_user : User
new_user = registered_user email row

did_register : (register single o times email password empty).0 ≡ ok (new_user, tokens_of new_user)
unfolding register open_account hash_password generate_token_pair generate_access_token
    generate_refresh_token text_beq
did_register = refl

login-register_example :
    (email ≢ [])
    × (is_user (single.get_by_email empty email) ≡ false)
    × (8 ≤ length password)
    × ((login single o times email password (register single o times email password empty).1).0
        ≡ with_user new_user (generate_token_pair o times new_user))
login-register_example =
    login-register single o single-Laws (λ p hash e. (text_beq_iff hash p).1 (ground arith)) times
      times email password empty new_user (tokens_of new_user) did_register

twice : (register single o times email password one).0 ≡ err email_already_registered
unfolding register open_account text_beq
twice = refl

did_login :
    (login single o times email password one).0 ≡ ok (user_of_row row, tokens_of (user_of_row row))
unfolding login generate_token_pair generate_access_token generate_refresh_token text_beq
did_login = refl

login-validates_example :
    (found : Row) × (single.get_by_email one email ≡ some found)
    × ((hash : Text) × (found.password_hash ≡ some hash) × (o.bcrypt_matches hash password ≡ true))
    × ((user_of_row row).id ≡ found.user_id)
    × ((now : ℕ)
        → numeric_date times.access_at ≤ now
        → now < numeric_date (times.access_at + o.manager.access_ttl)
        → validate_access_token o.jwt o.manager now (tokens_of (user_of_row row)).access_token
          ≡ ok (
              claims_of o.uuid_text o.manager o.manager.access_ttl times.access_at
                (user_of_row found)))
login-validates_example =
    login-validates single o plain-Laws times email password one (user_of_row row)
      (tokens_of (user_of_row row)) differ did_login

abbrev attempt : Attempt
attempt = record { extra = 0; picks = λ j. j }

abbrev visitor : User
visitor = guest_user 9 (codes "guest_abcdef")

did_create : (create_guest single o times 9 (attempt ∷ []) one).0 ≡ ok (visitor, tokens_of visitor)
unfolding create_guest generate_guest_username first_free guest_name suffix_of suffix_char
    free_for_guest generate_token_pair generate_access_token generate_refresh_token guest_user
    text_beq
did_create = refl

refresh_token-create_guest_example :
    (refresh_token single o times second (tokens_of visitor).refresh_token empty
      ≡ generate_token_pair o times visitor)
    × (free_for_guest single o one visitor.username ≡ true)
    × (visitor.is_guest ≡ true)
    × (visitor.id ≡ 9)
refresh_token-create_guest_example =
    refresh_token-create_guest single o plain-Laws times 9 (attempt ∷ []) one visitor
      (tokens_of visitor) did_create times second empty (omega arith) (omega arith)

abbrev kid : User
kid = record (user_of_row row) { username = codes "quiz_kid" }

did_set : (set_username single o [] 7 (codes "Quiz_Kid ") one).0 ≡ ok kid
unfolding set_username set_row user_of_row validate_username normal_name trim_right to_lower
    is_ascii lower_byte matches_username all_name_bytes name_byte text_beq
did_set = refl

is_plain : is_ascii (codes "Quiz_Kid ") ≡ true
unfolding is_ascii
is_plain = refl

set_username_once_example :
    let stored = normal_name o.unicode_lower (codes "Quiz_Kid ") in
    let s' = (set_username single o [] 7 (codes "Quiz_Kid ") one).1 in
    ((old : Row) × (single.get_by_id one (o.scan_uuid 7) ≡ some old) × (old.username ≡ none))
    × (single.get_by_username one stored ≡ none)
    × (kid.username ≡ stored)
    × IsName stored
    × ((new : Row) × (single.get_by_id s' (o.scan_uuid 7) ≡ some new)
        × (new.username ≡ some stored))
    × ((more : List ℕ) (other : Text) → is_ok (set_username single o more 7 other s').0 ≡ false)
set_username_once_example =
    set_username_once single o single-Laws [] 7 (codes "Quiz_Kid ") one kid is_plain did_set

abbrev token : Text
token = codes "t"

abbrev asked : Result ServiceError (Unit {0}) × Held
asked = request_password_reset single o (some token) email one

abbrev new_password : Text
new_password = codes "pass_word"

abbrev was_reset : Result ServiceError (Unit {0}) × Held
was_reset = reset_password single o token new_password asked.1

did_ask : asked.0 ≡ ok tt
unfolding request_password_reset text_beq
did_ask = refl

did_reset : was_reset.0 ≡ ok tt
unfolding request_password_reset reset_password reset_with change_password hash_password text_beq
did_reset = refl

reset_password_once_example :
    (is_ok (reset_password single o token password was_reset.1).0 ≡ false)
    × ((reset_password single o token password was_reset.1).1 ≡ was_reset.1)
reset_password_once_example =
    reset_password_once single o single-Laws token new_password asked.1 (λ s k. refl) did_reset
      password

-- `pgtype.UUID.Scan` has no case for a `uuid.UUID`.
abbrev refusing : Outside
refusing = record o { scan_uuid = λ n. none }

abbrev refused_reset : Result ServiceError (Unit {0}) × Held
refused_reset = reset_password single refusing token new_password asked.1

-- The other request that opens an account, on an email that is taken.
guest_stays : (convert_guest single o times 9 email password one).1 ≡ one
unfolding convert_guest open_account text_beq
guest_stays = refl
