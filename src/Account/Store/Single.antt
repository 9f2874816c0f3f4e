-- ===== src/Account/Store/Single.antt =====
-- A store that holds one user at most, and keys that do not expire: it keeps the laws.
use quiz.Prelude.{
  ℕ, ◌≡◌, refl, sym, ap, ◌∙◌, arith, inl, inr, Bool, true, false, Option, none, some, Eq, Map,
  lookup, insert, erase, lookup-erase, beq_self, if◌then◌else◌, ◌==◌, nat_eq, text_eq, text_beq_iff,
  nat_beq_iff, is_some, Text, Option-cases, Bool-cases,
}
use quiz.Account.Store.{Row, NewUser, Fetched, found, missing, Backend, Laws}

pub record Held : Type 0 where
  pub user : Option Row
  pub keys : Map Text Text

-- `column = $1`, where NULL is equal to nothing.
abbrev is_value {κ} : {X : Type κ} ⦃e : Eq X⦄ → Option X → Option X → Bool
is_value none want = false
is_value (some x) none = false
is_value (some x) (some y) = x == y

abbrev only : Option Row → (Row → Bool) → Option Row
only none test = none
only (some row) test = if test row then some row else none

abbrev fetched : Option Text → Fetched
fetched none = missing
fetched (some v) = found v

abbrev held : Row → Map Text Text → Held
held row keys = record { user = some row; keys = keys }

abbrev with_name : Row → Text → Row
with_name old name = record {
  user_id = old.user_id;
  email = old.email;
  password_hash = old.password_hash;
  username = some name;
  user_type = old.user_type;
}

abbrev with_hash : Row → Text → Row
with_hash old hash = record {
  user_id = old.user_id;
  email = old.email;
  password_hash = some hash;
  username = old.username;
  user_type = old.user_type;
}

abbrev created : NewUser → Row
created new = record {
  user_id = 7;
  email = new.email;
  password_hash = new.password_hash;
  username = new.username;
  user_type = new.user_type;
}

abbrev by_id : Held → Option ℕ → Option Row
by_id s id = only s.user (λ row. is_value id (some row.user_id))

abbrev named : Held → Option Row → Text → Option Row × Held
named s none name = (none, s)
named s (some old) name =
    if is_some old.username
    then (none, s)
    else (some (with_name old name), held (with_name old name) s.keys)

abbrev rehashed : Held → Option Row → Text → Held
rehashed s none hash = s
rehashed s (some old) hash = held (with_hash old hash) s.keys

abbrev pub single : Backend Held
single = record {
  get_by_email = λ s email. only s.user (λ row. is_value row.email (some email));
  get_by_username = λ s name. only s.user (λ row. is_value row.username (some name));
  get_by_id = by_id;
  create_user = λ s new. (some (created new), held (created new) s.keys);
  update_username = λ s id name. named s (by_id s id) name;
  update_password = λ s id hash. (true, rehashed s (by_id s id) hash);
  update_login = λ s id. s;
  exists_key = λ s key. some (if is_some (lookup key s.keys) then 1 else 0);
  set_key = λ s key value ttl. (true, record { user = s.user; keys = insert key value s.keys });
  get_key = λ s key. fetched (lookup key s.keys);
  del_key = λ s key. (true, record { user = s.user; keys = erase key s.keys });
}

is_value-id : (id : Option ℕ) (n : ℕ) → is_value id (some n) ≡ true → id ≡ some n
is_value-id none n h = absurd (cc)
is_value-id (some m) n h = ground (arith, nat_beq_iff m n)

only-found :
    (u : Option Row) (id : Option ℕ) (row : Row)
    → only u (λ r. is_value id (some r.user_id)) ≡ some row
    → (u ≡ some row) × (id ≡ some row.user_id)
only-found none id row h = absurd (cc)
only-found (some r) id row h = elim (Bool-cases (is_value id (some r.user_id))) [
  | inl hit ↦
      let same : r ≡ row = ground arith in
      (ap some same, is_value-id id r.user_id hit ∙ ap (λ (x : Row). some x.user_id) same)
  | inr miss ↦ absurd (ground arith)
]

only-hit :
    (row : Row) (id : ℕ)
    → id ≡ row.user_id
    → only (some row) (λ r. is_value (some id) (some r.user_id)) ≡ some row
only-hit row id e = ground (arith, nat_beq_iff id row.user_id)

named-lem :
    (s : Held) (id : Option ℕ) (o : Option Row) (name : Text) (row : Row)
    → by_id s id ≡ o
    → (named s o name).0 ≡ some row
    → ((old : Row) × (by_id s id ≡ some old) × (old.username ≡ none))
      × (by_id (named s o name).1 id ≡ some row)
      × (row.username ≡ some name)
named-lem s id none name row e h = absurd (cc)
named-lem s id (some old) name row e h = elim (Option-cases old.username) [
  | inr (n, set) ↦ absurd (ground arith)
  | inl null ↦
      let (there, same) = only-found s.user id old e in
      let new : with_name old name ≡ row = ground arith in
      rw (null, same)
        (
          (old, ap (by_id s) (sym same) ∙ e, null),
          only-hit (with_name old name) old.user_id refl ∙ ap some new,
          ap (λ (x : Row). x.username) (sym new),
        )
]

is_value-email :
    (u : Option Row) (email : Text) (row : Row)
    → only u (λ r. is_value r.email (some email)) ≡ some row
    → (u ≡ some row) × (row.email ≡ some email)
is_value-email none email row h = absurd (cc)
is_value-email (some r) email row h = elim (Option-cases r.email) [
  | inl null ↦ absurd (ground arith)
  | inr (held, e) ↦
      let same : r ≡ row = ground arith in
      let eq : held ≡ email = ground (arith, text_beq_iff held email) in
      (ap some same, ap (λ (x : Row). x.email) (sym same) ∙ e ∙ ap some eq)
]

email-hit :
    (row : Row) (email : Text)
    → row.email ≡ some email
    → only (some row) (λ r. is_value r.email (some email)) ≡ some row
email-hit row email e = rw (e, beq_self email) refl

no_user : (u : Option Row) → only u (λ r. is_value {X = ℕ} none (some r.user_id)) ≡ none
no_user none = refl
no_user (some r) = refl

pub single-Laws : Laws single
single-Laws = record {
  get-del = λ s k h. rw (lookup-erase k k s.keys, beq_self k) refl;
  username_was_null = λ s id name row h. (named-lem s id (by_id s id) name row refl h).0;
  username_is_set = λ s id name row h.
      (let (_, there, set) = named-lem s id (by_id s id) name row refl h in (there, set));
  created_row = λ s new row email h e.
      (let same : created new ≡ row = ground arith in
        (
          email-hit (created new) email e ∙ ap some same,
          ap (λ (x : Row). x.email) (sym same),
          ap (λ (x : Row). x.password_hash) (sym same),
          ap (λ (x : Row). x.user_type) (sym same),
        ));
  nobody_rehashed = λ s hash email. rw (no_user s.user) refl;
  del_key-rows = λ s k email. refl;
  found_by_id = λ s id row h. (only-found s.user id row h).1;
}
