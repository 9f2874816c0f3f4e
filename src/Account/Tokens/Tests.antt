-- ===== src/Account/Tokens/Tests.antt =====
-- The tokens of internal/auth/jwt/token.go with a concrete signer.
use quiz.Prelude.{
  ℕ, ◌+◌, ◌*◌, ◌≡◌, ◌≢◌, refl, arith, false, some, [], ◌∷◌, Text, codes, ok, err, if◌then◌else◌,
  ltb,
}
use quiz.Account.{User, registered}
use quiz.Account.Tokens.{
  Manager, invalid_token, expired_token, new_manager, numeric_date, second, hour, or_empty,
  claims_of, generate_access_token, validate_access_token, validate_refresh_token,
}
use quiz.Account.Tokens.Plain.{plain, plain-Laws}
use quiz.Account.Tokens.RoundTrip.{validate-generate_access_token}

abbrev manager : Manager
manager = new_manager (record {
  access_secret = codes "a";
  refresh_secret = codes "r";
  access_ttl = 0;
  refresh_ttl = 0;
  issuer = [];
})

one_hour : manager.access_ttl ≡ hour
unfolding new_manager
one_hour = refl

abbrev player : User
player = record {
  id = 7;
  email = some (codes "p@q");
  username = codes "quiz_kid";
  user_type = registered;
  is_guest = false;
}

abbrev uuid_text : ℕ → Text
uuid_text n = n ∷ []

abbrev token : Text
token = or_empty (generate_access_token plain uuid_text manager 0 player)

made : generate_access_token plain uuid_text manager 0 player ≡ some token
unfolding generate_access_token
made = refl

differ : manager.access_secret ≢ manager.refresh_secret
unfolding new_manager
differ e = absurd (ground arith)

in_time :
    (validate_access_token plain manager (2 * second) token ≡ (
      if ltb (2 * second) (numeric_date (0 + manager.access_ttl))
      then ok (claims_of uuid_text manager manager.access_ttl 0 player)
      else err expired_token))
    × (validate_refresh_token plain manager (2 * second) token ≡ err invalid_token)
in_time =
    validate-generate_access_token plain plain-Laws uuid_text manager player token 0 (2 * second)
      made (omega arith) differ
