-- ===== src/Account/Middleware/Tests.antt =====
-- The middleware of internal/auth/middleware.go on a concrete request.
use quiz.Prelude.{
  ◌≡◌, refl, true, false, Option, none, some, [], ◌∷◌, ◌++◌, Text, codes, text_beq, ok,
}
use quiz.Account.{User, registered, guest}
use quiz.Account.Tokens.{
  Claims, Manager, new_manager, second, or_empty, claims_of, generate_access_token,
  validate_access_token, validate_token, result_of,
}
use quiz.Account.Tokens.Plain.{plain}
use quiz.Account.Middleware.{
  served, unauthorized, forbidden, split_spaces, bearer_of, auth_middleware, require_auth,
  require_registered, require_registered_served,
}

abbrev manager : Manager
manager = new_manager (record {
  access_secret = codes "a";
  refresh_secret = codes "r";
  access_ttl = 0;
  refresh_ttl = 0;
  issuer = [];
})

abbrev player : User
player = record {
  id = 7;
  email = none;
  username = codes "kid";
  user_type = registered;
  is_guest = false;
}

abbrev visitor : User
visitor = record {
  id = 8;
  email = none;
  username = codes "guest_abc";
  user_type = guest;
  is_guest = true;
}

abbrev claims : User → Claims
claims user = claims_of (λ n. n ∷ []) manager manager.access_ttl 0 user

abbrev header : User → Text
header user = codes "Bearer " ++ or_empty (generate_access_token plain (λ n. n ∷ []) manager 0 user)

reached :
    require_registered (auth_middleware plain manager second (header player))
    ≡ served (some (claims player))
unfolding require_registered auth_middleware split_spaces bearer_of generate_access_token
    validate_access_token validate_token result_of new_manager claims_of text_beq
reached = refl

guest_forbidden :
    require_registered (auth_middleware plain manager second (header visitor)) ≡ forbidden
unfolding require_registered auth_middleware split_spaces bearer_of generate_access_token
    validate_access_token validate_token result_of new_manager claims_of text_beq
guest_forbidden = refl

no_header : require_auth (auth_middleware plain manager second []) ≡ unauthorized
unfolding auth_middleware require_auth text_beq
no_header = refl

require_registered_served_example :
    (token : Text) × (c : Claims) × (◌≡◌ {A = Option Claims} (some (claims player)) (some c))
    × (header player ≡ codes "Bearer " ++ token)
    × (validate_access_token plain manager second token ≡ ok c)
    × (c.is_guest ≡ false)
require_registered_served_example =
    require_registered_served plain manager second (header player) (some (claims player)) reached
