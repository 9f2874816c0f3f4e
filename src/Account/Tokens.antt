-- ===== src/Account/Tokens.antt =====
-- internal/auth/jwt/token.go. The library golang-jwt is a parameter: `Jwt` has what the code calls,
-- and `Laws` what is documented of it. Times are nanoseconds, tokens and secrets byte lists.
pub mod Plain
pub mod RoundTrip
mod Tests
use quiz.Prelude.{
  ℕ, ◌+◌, ◌*◌, ◌/◌, ◌<◌, ◌≤◌, ◌≡◌, ◌≢◌, Bool, true, false, Option, none, some, List, [],
  if◌then◌else◌, ◌==◌, nat_eq, text_eq, Text, codes, is_empty, Result, ok, err,
}
use quiz.Account.{User, UserType}

-- `Claims`, with its registered claims.
pub record Claims : Type 0 where
  pub user_id : ℕ
  pub email : Text
  pub username : Text
  pub user_type : UserType
  pub is_guest : Bool
  pub issuer : Text
  pub subject : Text
  pub expires_at : ℕ
  pub issued_at : ℕ
  pub not_before : ℕ

-- What `ParseWithClaims` comes to: claims with a valid token or not, the error of an expired token,
-- or another error.
pub data Parsed : Type 0 where
  parsed : Claims → Bool → Parsed
  expired failed : Parsed

-- `signed_string` signs with HS256; `is_hmac` tells the method in a token's header; `parse` gets the
-- time and the answer of the key function.
pub record Jwt : Type 0 where
  pub signed_string : Claims → Text → Option Text
  pub is_hmac : Text → Bool
  pub parse : ℕ → Text → Option Text → Parsed

-- A signed token is read back under its secret from its first second to its last, has expired from
-- then on, and is refused under any other secret.
pub record Laws (j : Jwt) : Type 0 where
  pub signs_hmac : (c : Claims) (k t : Text) → j.signed_string c k ≡ some t → j.is_hmac t ≡ true
  pub reads_back :
      (c : Claims) (k t : Text) (now : ℕ)
      → j.signed_string c k ≡ some t
      → c.not_before ≤ now
      → now < c.expires_at
      → j.parse now t (some k) ≡ parsed c true
  pub expires :
      (c : Claims) (k t : Text) (now : ℕ)
      → j.signed_string c k ≡ some t
      → c.not_before ≤ now
      → c.expires_at ≤ now
      → j.parse now t (some k) ≡ expired
  pub authentic :
      (c : Claims) (k l t : Text) (now : ℕ)
      → j.signed_string c k ≡ some t
      → k ≢ l
      → j.parse now t (some l) ≡ failed

pub data TokenError : Type 0 where
  invalid_token expired_token : TokenError

pub record TokenConfig : Type 0 where
  pub access_secret : Text
  pub refresh_secret : Text
  pub access_ttl : ℕ
  pub refresh_ttl : ℕ
  pub issuer : Text

pub record Manager : Type 0 where
  pub access_secret : Text
  pub refresh_secret : Text
  pub access_ttl : ℕ
  pub refresh_ttl : ℕ
  pub issuer : Text

abbrev pub second : ℕ
second = 1_000_000_000

abbrev pub hour : ℕ
hour = 3600 * second

unfoldable pub new_manager : TokenConfig → Manager
new_manager cfg = record {
  access_secret = cfg.access_secret;
  refresh_secret = cfg.refresh_secret;
  access_ttl = if cfg.access_ttl == 0 then hour else cfg.access_ttl;
  refresh_ttl = if cfg.refresh_ttl == 0 then 168 * hour else cfg.refresh_ttl;
  issuer = if cfg.issuer == [] then codes "quiz-platform" else cfg.issuer;
}

-- `jwt.NewNumericDate`, which drops the fraction of a second.
abbrev pub numeric_date : ℕ → ℕ
numeric_date t = t / second * second

abbrev pub or_empty : Option Text → Text
or_empty none = []
or_empty (some s) = s

-- The claims of both kinds of tokens; `uuid_text` is `uuid.UUID.String`.
unfoldable pub claims_of : (ℕ → Text) → Manager → ℕ → ℕ → User → Claims
claims_of uuid_text m ttl now user = record {
  user_id = user.id;
  email = or_empty user.email;
  username = user.username;
  user_type = user.user_type;
  is_guest = user.is_guest;
  issuer = m.issuer;
  subject = uuid_text user.id;
  expires_at = numeric_date (now + ttl);
  issued_at = numeric_date now;
  not_before = numeric_date now;
}

module _ (j : Jwt) (uuid_text : ℕ → Text) (m : Manager) where
  unfoldable pub generate_access_token : ℕ → User → Option Text
  unfolding claims_of
  generate_access_token now user =
      j.signed_string (claims_of uuid_text m m.access_ttl now user) m.access_secret

  unfoldable pub generate_refresh_token : ℕ → User → Option Text
  unfolding claims_of
  generate_refresh_token now user =
      j.signed_string (claims_of uuid_text m m.refresh_ttl now user) m.refresh_secret

-- The end of `validateToken`.
unfoldable pub result_of : Parsed → Result TokenError Claims
result_of (parsed claims valid) = if valid then ok claims else err invalid_token
result_of expired = err expired_token
result_of failed = err invalid_token

unfoldable pub validate_token : Jwt → ℕ → Text → Text → Result TokenError Claims
unfolding result_of
validate_token j now token secret =
    result_of (j.parse now token (if j.is_hmac token then some secret else none))

unfoldable pub validate_access_token : Jwt → Manager → ℕ → Text → Result TokenError Claims
unfolding validate_token
validate_access_token j m now token = validate_token j now token m.access_secret

unfoldable pub validate_refresh_token : Jwt → Manager → ℕ → Text → Result TokenError Claims
unfolding validate_token
validate_refresh_token j m now token = validate_token j now token m.refresh_secret
