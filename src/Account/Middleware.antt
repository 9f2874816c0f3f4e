-- ===== src/Account/Middleware.antt =====
-- internal/auth/middleware.go: which requests reach a handler, and with which claims.
mod Tests
use quiz.Prelude.{
  ℕ, ◌≡◌, refl, sym, ap, ◌∙◌, subst, arith, inl, inr, Bool, true, false, not, ◌&&◌, ◌||◌, Option,
  none, some, List, [], ◌∷◌, ◌++◌, if◌then◌else◌, ◌==◌, nat_eq, text_eq, text_beq_iff, Text, codes,
  Result, ok, err, Bool-cases,
}
use quiz.Account.Tokens.{Claims, Jwt, TokenError, Manager, validate_access_token}

abbrev pub space : ℕ
space = 32

abbrev pub onto_first : ℕ → List Text → List Text
onto_first c [] = (c ∷ []) ∷ []
onto_first c (part ∷ parts) = (c ∷ part) ∷ parts

-- `strings.Split(s, " ")`
pub split_spaces : Text → List Text
split_spaces [] = [] ∷ []
split_spaces (c ∷ s) =
    let parts = split_spaces s in if c == space then [] ∷ parts else onto_first c parts

-- How a request is answered: by the next handler, with the claims in its context, or refused.
pub data Answer : Type 0 where
  served : Option Claims → Answer
  unauthorized forbidden : Answer

-- The token of a header that has two parts, of which the first is "Bearer".
pub bearer_of : List Text → Option Text
bearer_of (scheme ∷ token ∷ []) = if scheme == codes "Bearer" then some token else none
bearer_of _ = none

abbrev answer_of : Result TokenError Claims → Answer
answer_of (ok claims) = served (some claims)
answer_of (err e) = unauthorized

abbrev check_bearer : (Text → Result TokenError Claims) → Option Text → Answer
check_bearer validate none = unauthorized
check_bearer validate (some token) = answer_of (validate token)

-- `AuthMiddleware`, for the text of the header.
pub auth_middleware : Jwt → Manager → ℕ → Text → Answer
unfolding split_spaces bearer_of
auth_middleware j m now header =
    if header == []
    then served none
    else check_bearer (validate_access_token j m now) (bearer_of (split_spaces header))

-- `RequireAuth`, on what reaches it.
pub require_auth : Answer → Answer
require_auth (served none) = unauthorized
require_auth (served (some claims)) = served (some claims)
require_auth refused = refused

-- `RequireRegistered`
pub require_registered : Answer → Answer
require_registered (served none) = forbidden
require_registered (served (some claims)) =
    if claims.is_guest then forbidden else served (some claims)
require_registered refused = refused

abbrev join_spaces : List Text → Text
join_spaces [] = []
join_spaces (part ∷ []) = part
join_spaces (part ∷ next ∷ parts) = part ++ (space ∷ join_spaces (next ∷ parts))

split_spaces-some : (s : Text) → (p : Text) × ((ps : List Text) × (split_spaces s ≡ p ∷ ps))
unfolding split_spaces
split_spaces-some [] = ([], ([], refl))
split_spaces-some (c ∷ s) =
    let (p, (ps, e)) = split_spaces-some s in
    elim (Bool-cases (c == space)) [
      | inl gap ↦ ([], (split_spaces s, rw gap refl))
      | inr letter ↦ (c ∷ p, (ps, rw letter (ap (onto_first c) e)))
    ]

onto_first-join :
    (c : ℕ) (p : Text) (ps : List Text) → join_spaces ((c ∷ p) ∷ ps) ≡ c ∷ join_spaces (p ∷ ps)
onto_first-join c p [] = refl
onto_first-join c p (q ∷ ps) = refl

-- Nothing of the header is lost by splitting it.
join-split_spaces : (s : Text) → join_spaces (split_spaces s) ≡ s
unfolding split_spaces
join-split_spaces [] = refl
join-split_spaces (c ∷ s) =
    let (p, (ps, e)) = split_spaces-some s in
    let ih : join_spaces (p ∷ ps) ≡ s = ap join_spaces (sym e) ∙ join-split_spaces s in
    elim (Bool-cases (c == space)) [
      | inl gap ↦ rw (gap, e) (ground (arith, ih, gap))
      | inr letter ↦ rw (letter, e) (onto_first-join c p ps ∙ ap (λ (x : Text). c ∷ x) ih)
    ]

bearer_of-header :
    (parts : List Text) (token : Text)
    → bearer_of parts ≡ some token
    → join_spaces parts ≡ codes "Bearer " ++ token
unfolding bearer_of
bearer_of-header [] token h = absurd (cc)
bearer_of-header (a ∷ []) token h = absurd (cc)
bearer_of-header (scheme ∷ t ∷ []) token h =
    let same : scheme ≡ codes "Bearer" = ground (arith, text_beq_iff scheme (codes "Bearer")) in
    let is_token : t ≡ token = ground arith in rw (same, is_token) refl
bearer_of-header (a ∷ b ∷ c ∷ more) token h = absurd (cc)

answered :
    (r : Result TokenError Claims) (found : Option Claims)
    → require_registered (answer_of r) ≡ served found
    → (claims : Claims) × (r ≡ ok claims) × (found ≡ some claims) × (claims.is_guest ≡ false)
unfolding require_registered
answered (err e) found h = absurd (cc)
answered (ok claims) found h = elim (Bool-cases claims.is_guest) [
  | inl guest ↦ absurd (ground arith)
  | inr member ↦ (claims, refl, ground arith, member)
]

checked :
    (validate : Text → Result TokenError Claims) (o : Option Text) (found : Option Claims)
    → require_registered (check_bearer validate o) ≡ served found
    → (token : Text) × (o ≡ some token)
      × ((claims : Claims) × (validate token ≡ ok claims)
          × (found ≡ some claims)
          × (claims.is_guest ≡ false))
unfolding require_registered
checked validate none found h = absurd (cc)
checked validate (some token) found h = (token, refl, answered (validate token) found h)

-- A handler behind `AuthMiddleware` and `RequireRegistered` is reached only by a request whose
-- header is "Bearer " and an access token that is valid at that time and no guest's; it gets the
-- claims of that token.
pub require_registered_served :
    (j : Jwt) (m : Manager) (now : ℕ) (header : Text) (found : Option Claims)
    → require_registered (auth_middleware j m now header) ≡ served found
    → (token : Text) × (claims : Claims) × (found ≡ some claims)
      × (header ≡ codes "Bearer " ++ token)
      × (validate_access_token j m now token ≡ ok claims)
      × (claims.is_guest ≡ false)
unfolding auth_middleware require_registered
require_registered_served j m now header found h = elim (Bool-cases (header == [])) [
  | inl bare ↦ absurd (ground arith)
  | inr full ↦
      let (token, is_bearer, (claims, valid, same, member)) =
        checked (validate_access_token j m now) (bearer_of (split_spaces header)) found
          (ground arith) in
      let whole : header ≡ codes "Bearer " ++ token =
        sym (join-split_spaces header) ∙ bearer_of-header (split_spaces header) token is_bearer in
      (token, claims, same, whole, valid, member)
]
