-- ===== src/Account/Tokens/RoundTrip.antt =====
-- What is read back from a token that the manager has signed.
use quiz.Prelude.{
  ℕ, ltb, Bool-cases, inl, inr, ◌+◌, ◌<◌, ◌≤◌, ◌≡◌, ◌≢◌, refl, arith, some, if◌then◌else◌, Text, ok,
  err,
}
use quiz.Account.{User}
use quiz.Account.Tokens.{
  Claims, Jwt, Laws, invalid_token, expired_token, Manager, numeric_date, claims_of,
  generate_access_token, generate_refresh_token, validate_token, validate_access_token,
  validate_refresh_token,
}

module _ (j : Jwt) (laws : Laws j) where
  signed-valid :
      (c : Claims) (k t : Text) (now : ℕ)
      → j.signed_string c k ≡ some t
      → c.not_before ≤ now
      → now < c.expires_at
      → validate_token j now t k ≡ ok c
  unfolding validate_token
  signed-valid c k t now s from until =
      rw (laws.signs_hmac c k t s, laws.reads_back c k t now s from until) refl

  signed-expired :
      (c : Claims) (k t : Text) (now : ℕ)
      → j.signed_string c k ≡ some t
      → c.not_before ≤ now
      → c.expires_at ≤ now
      → validate_token j now t k ≡ err expired_token
  unfolding validate_token
  signed-expired c k t now s from until =
      rw (laws.signs_hmac c k t s, laws.expires c k t now s from until) refl

  signed-foreign :
      (c : Claims) (k l t : Text) (now : ℕ)
      → j.signed_string c k ≡ some t
      → k ≢ l
      → validate_token j now t l ≡ err invalid_token
  unfolding validate_token
  signed-foreign c k l t now s other =
      rw (laws.signs_hmac c k t s, laws.authentic c k l t now s other) refl

  module _ (uuid_text : ℕ → Text) (m : Manager) where
    -- A token of a user, read at a time that is not before its first second: the access token gives
    -- back exactly the user's claims until it expires and the error of an expired token from then
    -- on, and it is no refresh token if the secrets differ.
    pub validate-generate_access_token :
        (user : User) (token : Text) (issued now : ℕ)
        → generate_access_token j uuid_text m issued user ≡ some token
        → numeric_date issued ≤ now
        → m.access_secret ≢ m.refresh_secret
        → (validate_access_token j m now token ≡ (
            if ltb now (numeric_date (issued + m.access_ttl))
            then ok (claims_of uuid_text m m.access_ttl issued user)
            else err expired_token))
          × (validate_refresh_token j m now token ≡ err invalid_token)
    unfolding generate_access_token validate_access_token validate_refresh_token
    validate-generate_access_token user token issued now s from differ =
        let c = claims_of uuid_text m m.access_ttl issued user in
        (
          elim (Bool-cases (ltb now (numeric_date (issued + m.access_ttl)))) [
            | inl fresh ↦ rw fresh (signed-valid c m.access_secret token now s from (ground arith))
            | inr old ↦ rw old (signed-expired c m.access_secret token now s from (ground arith))
          ],
          signed-foreign c m.access_secret m.refresh_secret token now s differ,
        )

    -- A refresh token gives back the user's claims until it expires.
    pub validate-generate_refresh_token :
        (user : User) (token : Text) (issued now : ℕ)
        → generate_refresh_token j uuid_text m issued user ≡ some token
        → numeric_date issued ≤ now
        → now < numeric_date (issued + m.refresh_ttl)
        → validate_refresh_token j m now token
          ≡ ok (claims_of uuid_text m m.refresh_ttl issued user)
    unfolding generate_refresh_token validate_refresh_token
    validate-generate_refresh_token user token issued now s from until =
        signed-valid (claims_of uuid_text m m.refresh_ttl issued user) m.refresh_secret token now s
          from until
