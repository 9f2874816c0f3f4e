-- ===== src/Account/Service.antt =====
-- internal/auth/service.go and internal/auth/password.go over the interface of `Store`. bcrypt, the
-- JSON of the reset data, SMTP, the random tokens and names, and the clock are arguments; so is
-- `pgtype.UUID.Scan`, whose error the code ignores: what it has not read is NULL.
pub mod Names
pub mod Sessions
pub mod Reset
mod Tests
use quiz.Prelude.{
  ℕ, Bool, true, false, not, ◌&&◌, ◌||◌, Option, none, some, List, [], ◌∷◌, ◌++◌, if◌then◌else◌,
  ◌==◌, nat_eq, text_eq, ltb, Text, codes, is_empty, is_some, length, Result, ok, err,
}
use quiz.Account.{User, UserType, registered, guest, is_guest_type, TokenPair}
use quiz.Account.Names.{
  NameError, validate_username, normal_name, generate_username_suggestions, Attempt,
  generate_guest_username,
}
use quiz.Account.Tokens.{
  Claims, Jwt, Manager, TokenError, or_empty, generate_access_token, generate_refresh_token,
  validate_refresh_token,
}
use quiz.Account.Store.{Row, NewUser, Fetched, found, missing, broken, Backend}

pub data ServiceError : Type 0 where
  email_required email_already_registered create_failed tokens_failed : ServiceError
  password_too_short hash_failed invalid_credentials no_guest_username : ServiceError
  invalid_refresh_token : TokenError → ServiceError
  user_not_found update_username_failed username_already_set : ServiceError
  invalid_username : NameError → ServiceError
  -- With the suggestions; `none` while they are still being drawn.
  username_taken : Option (List Text) → ServiceError
  redis_not_configured email_not_configured token_not_generated token_not_stored : ServiceError
  email_not_sent invalid_reset_token reset_token_unread undecodable_token no_user_in_token :
      ServiceError
  invalid_user_id update_password_failed : ServiceError

-- How the reset data is read: `json.Unmarshal`, the key "user_id", `uuid.Parse`.
pub data ResetData : Type 0 where
  not_json no_user_id no_uuid : ResetData
  user_of_reset : ℕ → ResetData

pub record Outside : Type 0 where
  pub jwt : Jwt
  pub manager : Manager
  pub uuid_text : ℕ → Text
  pub scan_uuid : ℕ → Option ℕ
  pub unicode_lower : Text → Text
  pub bcrypt : Text → Option Text
  pub bcrypt_matches : Text → Text → Bool
  pub has_redis : Bool
  pub has_email : Bool
  pub encode_reset : ℕ → Text → Text
  pub decode_reset : Text → ResetData
  pub send_email : Text → Text → Bool

-- The two readings of the clock while a pair of tokens is made.
pub record Times : Type 0 where
  pub access_at : ℕ
  pub refresh_at : ℕ

abbrev min_password_length : ℕ
min_password_length = 8

pub hash_password : Outside → Text → Result ServiceError Text
hash_password o password =
    if ltb (length password) min_password_length
    then err password_too_short
    else elim (o.bcrypt password) [ none ↦ err hash_failed | some hash ↦ ok hash ]

abbrev pub pair_of : Option Text → Option Text → Result ServiceError TokenPair
pair_of none refresh = err tokens_failed
pair_of (some access) none = err tokens_failed
pair_of (some access) (some refresh) =
    ok (record { access_token = access; refresh_token = refresh; expires_in = 3600 })

pub generate_token_pair : Outside → Times → User → Result ServiceError TokenPair
generate_token_pair o times user =
    pair_of (generate_access_token o.jwt o.uuid_text o.manager times.access_at user)
      (generate_refresh_token o.jwt o.uuid_text o.manager times.refresh_at user)

abbrev pub with_user : User → Result ServiceError TokenPair → Result ServiceError (User × TokenPair)
with_user user (ok tokens) = ok (user, tokens)
with_user user (err e) = err e

-- The user of a row, as `Login`, `RefreshToken` and `SetUsername` make one.
pub user_of_row : Row → User
user_of_row row = record {
  id = row.user_id;
  email = row.email;
  username = or_empty row.username;
  user_type = row.user_type;
  is_guest = is_guest_type row.user_type;
}

-- The user of the row that a registration has created.
pub registered_user : Text → Row → User
registered_user email row = record {
  id = row.user_id;
  email = some email;
  username = or_empty row.username;
  user_type = registered;
  is_guest = false;
}

pub guest_user : ℕ → Text → User
guest_user id username = record {
  id = id;
  email = none;
  username = username;
  user_type = guest;
  is_guest = true;
}

-- Whether the row that a lookup found is a user's.
abbrev pub is_user : Option Row → Bool
is_user none = false
is_user (some row) = not (row.user_id == 0)

abbrev guest_key : Text → Text
guest_key username = codes "guest:username:" ++ username

abbrev pub reset_key : Text → Text
reset_key token = codes "password_reset:" ++ token

abbrev day : ℕ
day = 86_400

abbrev pub hour : ℕ
hour = 3600

-- The check that the update has happened.
pub set_row : Text → Option Row → Result ServiceError User
unfolding user_of_row
set_row username none = err update_username_failed
set_row username (some row) =
    if is_some row.username && or_empty row.username == username
    then ok (user_of_row row)
    else err username_already_set

module _ {S : Type 0} (b : Backend S) (o : Outside) where
  -- The part that `Register` and `ConvertGuest` share: an account of its own, with new tokens.
  pub open_account : Times → Text → Text → S → Result ServiceError (User × TokenPair) × S
  unfolding hash_password generate_token_pair
  open_account times email password s =
      if is_user (b.get_by_email s email)
      then (err email_already_registered, s)
      else elim (hash_password o password) [
        | err e ↦ (err e, s)
        | ok hash ↦
            let (row, s') = b.create_user s (record {
              email = some email;
              password_hash = some hash;
              username = none;
              user_type = registered;
            }) in
            elim row [
              | none ↦ (err create_failed, s')
              | some r ↦
                  let user = registered_user email r in
                  (with_user user (generate_token_pair o times user), s')
            ]
      ]

  pub register : Times → Text → Text → S → Result ServiceError (User × TokenPair) × S
  unfolding open_account
  register times email password s =
      if email == [] then (err email_required, s) else open_account times email password s

  -- The guest's identifier is in the request, but nothing reads it.
  pub convert_guest : Times → ℕ → Text → Text → S → Result ServiceError (User × TokenPair) × S
  unfolding open_account
  convert_guest times guest_id email password s = open_account times email password s

  abbrev pub matches_hash : Option Text → Text → Bool
  matches_hash none password = false
  matches_hash (some hash) password = o.bcrypt_matches hash password

  pub login : Times → Text → Text → S → Result ServiceError (User × TokenPair) × S
  unfolding generate_token_pair user_of_row
  login times email password s = elim (b.get_by_email s email) [
    | none ↦ (err invalid_credentials, s)
    | some row ↦
        if matches_hash row.password_hash password
        then (let user = user_of_row row in
            (
              with_user user (generate_token_pair o times user),
              b.update_login s (o.scan_uuid row.user_id),
            ))
        else (err invalid_credentials, s)
  ]

  -- Whether a guest may have the name.
  pub free_for_guest : S → Text → Bool
  free_for_guest s username =
      let unused = not (is_some (b.get_by_username s username)) in
      if o.has_redis
      then elim (b.exists_key s (guest_key username)) [ none ↦ false | some n ↦ n == 0 && unused ]
      else unused

  pub create_guest : Times → ℕ → List Attempt → S → Result ServiceError (User × TokenPair) × S
  unfolding generate_token_pair free_for_guest guest_user
  create_guest times id attempts s = elim (generate_guest_username (free_for_guest s) attempts) [
    | none ↦ (err no_guest_username, s)
    | some username ↦
        let stored =
          if o.has_redis
          then (b.set_key s (guest_key username) (codes "guest-" ++ o.uuid_text id) day).1
          else s in
        let user = guest_user id username in
        (with_user user (generate_token_pair o times user), stored)
  ]

  -- What follows the validation of the token.
  pub refresh_with : Times → S → Result TokenError Claims → Result ServiceError TokenPair
  unfolding generate_token_pair guest_user user_of_row
  refresh_with times s (err e) = err (invalid_refresh_token e)
  refresh_with times s (ok claims) =
      if claims.is_guest
      then generate_token_pair o times (guest_user claims.user_id claims.username)
      else elim (b.get_by_id s (o.scan_uuid claims.user_id)) [
        | none ↦ err user_not_found
        | some row ↦ generate_token_pair o times (user_of_row row)
      ]

  pub refresh_token : Times → ℕ → Text → S → Result ServiceError TokenPair
  unfolding refresh_with
  refresh_token times now token s =
      refresh_with times s (validate_refresh_token o.jwt o.manager now token)

  pub suggestions : List ℕ → Text → S → Option (List Text)
  suggestions draws username s =
      generate_username_suggestions o.unicode_lower (λ c. not (is_some (b.get_by_username s c)))
        draws username

  -- Whether Redis has the name of a guest.
  abbrev pub is_guest_name : S → Text → Bool
  is_guest_name s username =
      o.has_redis && elim (b.exists_key s (guest_key username)) [ none ↦ false | some n ↦ ltb 0 n ]

  pub set_username : List ℕ → ℕ → Text → S → Result ServiceError User × S
  unfolding set_row suggestions
  set_username draws user_id name s = elim (validate_username o.unicode_lower name) [
    | some e ↦ (err (invalid_username e), s)
    | none ↦
        let username = normal_name o.unicode_lower name in
        if is_some (b.get_by_username s username)
        then (err (username_taken (suggestions draws username s)), s)
        else if is_guest_name s username
        then (err (username_taken (suggestions draws username s)), s)
        else (let (row, s') = b.update_username s (o.scan_uuid user_id) username in
            (set_row username row, s'))
  ]

  -- `token` is the random token, unless none could be read.
  pub request_password_reset : Option Text → Text → S → Result ServiceError (Unit {0}) × S
  request_password_reset token email s =
      if not o.has_redis
      then (err redis_not_configured, s)
      else if not o.has_email
      then (err email_not_configured, s)
      else elim (b.get_by_email s email) [
        | none ↦ (ok tt, s)
        | some row ↦ if row.user_id == 0 then (ok tt, s) else elim token [
          | none ↦ (err token_not_generated, s)
          | some t ↦
              let (stored, s') =
                b.set_key s (reset_key t) (o.encode_reset row.user_id email) hour in
              (
                (if not stored
                    then err token_not_stored
                    else if o.send_email email t
                    then ok tt
                    else err email_not_sent),
                s',
              )
        ]
      ]

  -- A failure to delete the token is only logged.
  pub change_password : Text → ℕ → Text → S → Result ServiceError (Unit {0}) × S
  change_password token user_id hash s =
      let (updated, s') = b.update_password s (o.scan_uuid user_id) hash in
      if updated
      then (ok tt, (b.del_key s' (reset_key token)).1)
      else (err update_password_failed, s')

  abbrev with_reset :
      (ℕ → Result ServiceError (Unit {0}) × S) → S → ResetData → Result ServiceError (Unit {0}) × S
  with_reset change s not_json = (err undecodable_token, s)
  with_reset change s no_user_id = (err no_user_in_token, s)
  with_reset change s no_uuid = (err invalid_user_id, s)
  with_reset change s (user_of_reset id) = change id

  abbrev pub with_hash :
      (Text → Result ServiceError (Unit {0}) × S)
      → S
      → Result ServiceError Text
      → Result ServiceError (Unit {0}) × S
  with_hash change s (err e) = (err e, s)
  with_hash change s (ok hash) = change hash

  -- What follows the reading of the token's data.
  pub reset_with : Text → Text → S → Fetched → Result ServiceError (Unit {0}) × S
  unfolding hash_password change_password
  reset_with token password s missing = (err invalid_reset_token, s)
  reset_with token password s broken = (err reset_token_unread, s)
  reset_with token password s (found json) =
      with_reset
        (λ user_id.
          with_hash (λ hash. change_password token user_id hash s) s (hash_password o password))
        s (o.decode_reset json)

  pub reset_password : Text → Text → S → Result ServiceError (Unit {0}) × S
  unfolding reset_with
  reset_password token password s =
      if not o.has_redis
      then (err redis_not_configured, s)
      else if ltb (length password) min_password_length
      then (err password_too_short, s)
      else reset_with token password s (b.get_key s (reset_key token))
