-- ===== src/Account/Service/Sessions.antt =====
-- Sessions: what the tokens that a registration, a login or a guest gets are good for.
use quiz.Prelude.{
  ℕ, ◌≡◌, ◌≢◌, ◌≤◌, ◌<◌, ◌+◌, refl, sym, ap, ◌∙◌, arith, inl, inr, true, false, Option, none, some,
  List, [], ◌==◌, text_eq, text_beq_iff, Text, Result, ok, err, Bool-cases, Option-cases,
  Result-cases, ltb, length,
}
use quiz.Account.{User, registered, TokenPair}
use quiz.Account.Names.{Attempt, generate_guest_username}
use quiz.Account.Tokens.{
  Claims, TokenError, numeric_date, claims_of, generate_access_token, generate_refresh_token,
  validate_access_token, validate_refresh_token,
}
use quiz.Account.Tokens.{Laws as JwtLaws}
use quiz.Account.Names.Valid.{generate_guest_username_lem}
use quiz.Account.Tokens.RoundTrip.{validate-generate_access_token, validate-generate_refresh_token}
use quiz.Account.Store.{Row, NewUser, Backend, Laws}
use quiz.Account.Service.{
  ServiceError, Outside, Times, hash_password, generate_token_pair, pair_of, with_user, user_of_row,
  registered_user, guest_user, is_user, open_account, register, login, matches_hash, free_for_guest,
  create_guest, refresh_with, refresh_token,
}

pair_of-ok :
    (access refresh : Option Text) (tokens : TokenPair)
    → pair_of access refresh ≡ ok tokens
    → (access ≡ some tokens.access_token) × (refresh ≡ some tokens.refresh_token)
pair_of-ok none refresh tokens h = absurd (cc)
pair_of-ok (some a) none tokens h = absurd (cc)
pair_of-ok (some a) (some r) tokens h = (ground arith, ground arith)

with_user-ok :
    (given user : User) (r : Result ServiceError TokenPair) (tokens : TokenPair)
    → with_user given r ≡ ok (user, tokens)
    → (user ≡ given) × (r ≡ ok tokens)
with_user-ok given user (err e) tokens h = absurd (cc)
with_user-ok given user (ok made) tokens h = (ground arith, ground arith)

module _ (o : Outside) where
  -- Both tokens of a pair carry the user that the pair was made for.
  pair-signed :
      (times : Times) (user : User) (tokens : TokenPair)
      → generate_token_pair o times user ≡ ok tokens
      → (generate_access_token o.jwt o.uuid_text o.manager times.access_at user
          ≡ some tokens.access_token)
        × (generate_refresh_token o.jwt o.uuid_text o.manager times.refresh_at user
            ≡ some tokens.refresh_token)
  unfolding generate_token_pair
  pair-signed times user tokens h =
      pair_of-ok (generate_access_token o.jwt o.uuid_text o.manager times.access_at user)
        (generate_refresh_token o.jwt o.uuid_text o.manager times.refresh_at user) tokens h

module _ {S : Type 0} (b : Backend S) (o : Outside) where
  created_guest :
      (times : Times) (id : ℕ) (attempts : List Attempt) (s : S) (user : User) (tokens : TokenPair)
      → (create_guest b o times id attempts s).0 ≡ ok (user, tokens)
      → (generate_guest_username (free_for_guest b o s) attempts ≡ some user.username)
        × (user ≡ guest_user id user.username)
        × (generate_token_pair o times user ≡ ok tokens)
  unfolding create_guest guest_user
  created_guest times id attempts s user tokens h =
      elim (Option-cases (generate_guest_username (free_for_guest b o s) attempts)) [
        | inl nobody ↦ absurd (ground arith)
        | inr (name, drawn) ↦
            let given = guest_user id name in
            let (same, made) =
              with_user-ok given user (generate_token_pair o times given) tokens (ground arith) in
            let called : user.username ≡ name = ap (λ (u : User). u.username) same in
            (
              drawn ∙ ap some (sym called),
              same ∙ ap (guest_user id) (sym called),
              ap (generate_token_pair o times) same ∙ made,
            )
      ]

  refreshed_guest :
      (times : Times) (s : S) (claims : Claims)
      → claims.is_guest ≡ true
      → refresh_with b o times s (ok claims)
        ≡ generate_token_pair o times (guest_user claims.user_id claims.username)
  unfolding refresh_with
  refreshed_guest times s claims h = rw h refl

  -- A guest's refresh token, used before it expires, makes a new pair of tokens for the same guest,
  -- with the same identifier and name, whatever the stores then hold: nothing of the guest has to be
  -- in the database.
  pub refresh_token-create_guest :
      (laws : JwtLaws o.jwt) (times : Times) (id : ℕ) (attempts : List Attempt) (s : S)
      (user : User) (tokens : TokenPair)
      → (create_guest b o times id attempts s).0 ≡ ok (user, tokens)
      → (later : Times) (now : ℕ) (s' : S) → numeric_date times.refresh_at ≤ now
      → now < numeric_date (times.refresh_at + o.manager.refresh_ttl)
      → (refresh_token b o later now tokens.refresh_token s' ≡ generate_token_pair o later user)
        × (free_for_guest b o s user.username ≡ true)
        × (user.is_guest ≡ true)
        × (user.id ≡ id)
  unfolding refresh_token refresh_with claims_of
  refresh_token-create_guest laws times id attempts s user tokens h later now s' from until =
      let (drawn, same, made) = created_guest times id attempts s user tokens h in
      let (_, signed) = pair-signed o times user tokens made in
      let claims = claims_of o.uuid_text o.manager o.manager.refresh_ttl times.refresh_at user in
      let read : validate_refresh_token o.jwt o.manager now tokens.refresh_token ≡ ok claims =
        validate-generate_refresh_token o.jwt laws o.uuid_text o.manager user tokens.refresh_token
          times.refresh_at now signed from until in
      let is_guest : user.is_guest ≡ true = ap (λ (u : User). u.is_guest) same in
      let is_id : user.id ≡ id = ap (λ (u : User). u.id) same in
      let (available, _, _) =
        generate_guest_username_lem (free_for_guest b o s) attempts user.username drawn in
      (
        ap (refresh_with b o later s') read
            ∙ refreshed_guest later s' claims is_guest
            ∙ ap (λ (i : ℕ). generate_token_pair o later (guest_user i user.username)) is_id
            ∙ ap (generate_token_pair o later) (sym same),
        available,
        is_guest,
        is_id,
      )

  logged_in :
      (times : Times) (email password : Text) (s : S) (user : User) (tokens : TokenPair)
      → (login b o times email password s).0 ≡ ok (user, tokens)
      → (row : Row) × (b.get_by_email s email ≡ some row)
        × (matches_hash b o row.password_hash password ≡ true)
        × (user ≡ user_of_row row)
        × (generate_token_pair o times user ≡ ok tokens)
  unfolding login
  logged_in times email password s user tokens h = elim (Option-cases (b.get_by_email s email)) [
    | inl nobody ↦ absurd (ground arith)
    | inr (row, there) ↦ elim (Bool-cases (matches_hash b o row.password_hash password)) [
      | inr wrong ↦ absurd (ground arith)
      | inl right ↦
          let given = user_of_row row in
          let (same, made) =
            with_user-ok given user (generate_token_pair o times given) tokens (ground arith) in
          (row, there, right, same, ap (generate_token_pair o times) same ∙ made)
    ]
  ]

  matches_hash-some :
      (held : Option Text) (password : Text)
      → matches_hash b o held password ≡ true
      → (hash : Text) × (held ≡ some hash) × (o.bcrypt_matches hash password ≡ true)
  matches_hash-some none password h = absurd (cc)
  matches_hash-some (some hash) password h = (hash, refl, h)

  -- A login succeeds only for an account that has a password, and only with one that fits its hash;
  -- the access token it returns is accepted until it expires, with the claims of that account's row.
  pub login-validates :
      (laws : JwtLaws o.jwt) (times : Times) (email password : Text) (s : S) (user : User)
      (tokens : TokenPair)
      → o.manager.access_secret ≢ o.manager.refresh_secret
      → (login b o times email password s).0 ≡ ok (user, tokens)
      → (row : Row) × (b.get_by_email s email ≡ some row)
        × ((hash : Text) × (row.password_hash ≡ some hash)
            × (o.bcrypt_matches hash password ≡ true))
        × (user.id ≡ row.user_id)
        × ((now : ℕ)
            → numeric_date times.access_at ≤ now
            → now < numeric_date (times.access_at + o.manager.access_ttl)
            → validate_access_token o.jwt o.manager now tokens.access_token
              ≡ ok (
                  claims_of o.uuid_text o.manager o.manager.access_ttl times.access_at
                    (user_of_row row)))
  unfolding user_of_row
  login-validates laws times email password s user tokens differ h =
      let (row, there, right, same, made) = logged_in times email password s user tokens h in
      let (signed, _) = pair-signed o times user tokens made in
      (
        row,
        there,
        matches_hash-some row.password_hash password right,
        ap (λ (u : User). u.id) same,
        λ now from until.
            (let (read, _) =
                validate-generate_access_token o.jwt laws o.uuid_text o.manager user
                  tokens.access_token times.access_at now signed from differ in
              let answer : User → Result TokenError Claims =
                λ u. ok (claims_of o.uuid_text o.manager o.manager.access_ttl times.access_at u) in
              let fresh : ltb now (numeric_date (times.access_at + o.manager.access_ttl)) ≡ true =
                ground arith in
              read ∙ rw fresh (ap answer same)),
      )

  abbrev new_account : Text → Text → NewUser
  new_account email hash = record {
    email = some email;
    password_hash = some hash;
    username = none;
    user_type = registered;
  }

  opened :
      (times : Times) (email password : Text) (s : S) (user : User) (tokens : TokenPair)
      → (open_account b o times email password s).0 ≡ ok (user, tokens)
      → (hash : Text) × (row : Row) × (hash_password o password ≡ ok hash)
        × ((b.create_user s (new_account email hash)).0 ≡ some row)
        × ((open_account b o times email password s).1
            ≡ (b.create_user s (new_account email hash)).1)
        × (is_user (b.get_by_email s email) ≡ false)
        × (user ≡ registered_user email row)
        × (generate_token_pair o times user ≡ ok tokens)
  unfolding open_account
  opened times email password s user tokens h =
      elim (Bool-cases (is_user (b.get_by_email s email))) [
        | inl taken ↦ absurd (ground arith)
        | inr unused ↦ elim (Result-cases (hash_password o password)) [
          | inr (e, bad) ↦ absurd (ground arith)
          | inl (hash, hashed) ↦ elim (Option-cases (b.create_user s (new_account email hash)).0) [
            | inl failed ↦ absurd (ground arith)
            | inr (row, made) ↦
                let given = registered_user email row in
                let (same, signed) =
                  with_user-ok given user (generate_token_pair o times given) tokens
                    (ground arith) in
                (
                  hash,
                  row,
                  hashed,
                  made,
                  ground arith,
                  unused,
                  same,
                  ap (generate_token_pair o times) same ∙ signed,
                )
          ]
        ]
      ]

  pub hashed :
      (password hash : Text)
      → hash_password o password ≡ ok hash
      → (8 ≤ length password) × (o.bcrypt password ≡ some hash)
  unfolding hash_password
  hashed password hash h = elim (Option-cases (o.bcrypt password)) [
    | inl failed ↦ absurd (ground arith)
    | inr (made, e) ↦ (ground arith, ground (arith, e))
  ]

  login-found :
      (times : Times) (email password hash : Text) (s : S) (row : Row)
      → b.get_by_email s email ≡ some row
      → row.password_hash ≡ some hash
      → o.bcrypt_matches hash password ≡ true
      → (login b o times email password s).0
        ≡ with_user (user_of_row row) (generate_token_pair o times (user_of_row row))
  unfolding login
  login-found times email password hash s row there has_hash fits =
      ground (arith, there, has_hash, fits)

  created_user :
      (email : Text) (row : Row)
      → row.email ≡ some email
      → row.user_type ≡ registered
      → user_of_row row ≡ registered_user email row
  unfolding user_of_row registered_user
  created_user email row has_email is_registered = rw (has_email, is_registered) refl

  -- Whoever has registered can log in: a registration succeeds only with an email that is not empty
  -- and that no user has, and a password of eight bytes or more; after it, a login with the same
  -- email and password finds the same user, and fails only if a token cannot be signed.
  pub login-register :
      (laws : Laws b)
      → ((p hash : Text) → o.bcrypt p ≡ some hash → o.bcrypt_matches hash p ≡ true)
      → (times later : Times) (email password : Text) (s : S) (user : User) (tokens : TokenPair)
      → (register b o times email password s).0 ≡ ok (user, tokens)
      → (email ≢ [])
        × (is_user (b.get_by_email s email) ≡ false)
        × (8 ≤ length password)
        × ((login b o later email password (register b o times email password s).1).0
            ≡ with_user user (generate_token_pair o later user))
  unfolding register
  login-register laws bcrypt_law times later email password s user tokens h =
      elim (Bool-cases (email == [])) [
        | inl bare ↦ absurd (ground arith)
        | inr full ↦
            let (hash, row, is_hash, made, after, unused, same, _) =
              opened times email password s user tokens (ground arith) in
            let (long, encrypted) = hashed password hash is_hash in
            let (there, has_email, has_hash, has_type) =
              laws.created_row s (new_account email hash) row email made refl in
            let found =
              login-found later email password hash (b.create_user s (new_account email hash)).1 row
                there has_hash (bcrypt_law password hash encrypted) in
            (
              ground (arith, text_beq_iff email []),
              unused,
              long,
              rw (full, after, same, ← created_user email row has_email has_type) found,
            )
      ]
