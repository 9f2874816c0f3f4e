-- ===== src/Account/Service/Names.antt =====
-- The name that `SetUsername` gives an account, once.
use quiz.Prelude.{
  ℕ, ◌≡◌, refl, ap, ◌∙◌, arith, inl, inr, true, false, Option, none, some, List, text_eq,
  text_beq_iff, Text, Result, ok, err, is_ok, Bool-cases, Option-cases,
}
use quiz.Account.{User}
use quiz.Account.Names.{validate_username, normal_name, is_ascii}
use quiz.Account.Names.Valid.{IsName, validate_username_iff}
use quiz.Account.Tokens.{or_empty}
use quiz.Account.Store.{Row, Backend, Laws}
use quiz.Account.Service.{ServiceError, Outside, user_of_row, set_row, set_username, is_guest_name}

set_row-ok :
    (name : Text) (o : Option Row) (user : User)
    → set_row name o ≡ ok user
    → (row : Row) × (o ≡ some row) × (row.username ≡ some name) × (user ≡ user_of_row row)
unfolding set_row
set_row-ok name none user h = absurd (cc)
set_row-ok name (some row) user h = elim (Option-cases row.username) [
  | inl null ↦ absurd (ground arith)
  | inr (held, e) ↦
      let same : held ≡ name = ground (arith, text_beq_iff held name) in
      (row, refl, rw (← same) e, ground arith)
]

module _ {S : Type 0} (b : Backend S) (o : Outside) where
  -- What the lookups found, and the update, when a name is set.
  accepted :
      (draws : List ℕ) (id : ℕ) (name : Text) (s : S) (user : User)
      → (set_username b o draws id name s).0 ≡ ok user
      → let stored = normal_name o.unicode_lower name in
        (validate_username o.unicode_lower name ≡ none)
        × (b.get_by_username s stored ≡ none)
        × (is_guest_name b o s stored ≡ false)
        × (set_row stored (b.update_username s (o.scan_uuid id) stored).0 ≡ ok user)
        × ((set_username b o draws id name s).1 ≡ (b.update_username s (o.scan_uuid id) stored).1)
  unfolding set_username
  accepted draws id name s user h = elim (Option-cases (validate_username o.unicode_lower name)) [
    | inr (e, bad) ↦ absurd (ground arith)
    | inl fine ↦
        let stored = normal_name o.unicode_lower name in
        elim (Option-cases (b.get_by_username s stored)) [
          | inr (row, taken) ↦ absurd (ground arith)
          | inl unused ↦ elim (Bool-cases (is_guest_name b o s stored)) [
            | inl taken ↦ absurd (ground arith)
            | inr no_guest ↦ (fine, unused, no_guest, ground arith, ground arith)
          ]
        ]
  ]

  updated :
      (laws : Laws b) (draws : List ℕ) (id : ℕ) (name : Text) (s : S) (user : User)
      → (set_username b o draws id name s).0 ≡ ok user
      → (row : Row) × ((old : Row) × (b.get_by_id s (o.scan_uuid id) ≡ some old)
          × (old.username ≡ none))
        × (b.get_by_id (set_username b o draws id name s).1 (o.scan_uuid id) ≡ some row)
        × (row.username ≡ some (normal_name o.unicode_lower name))
        × (user ≡ user_of_row row)
  updated laws draws id name s user h =
      let stored = normal_name o.unicode_lower name in
      let (_, _, _, is_set, after) = accepted draws id name s user h in
      let (row, returned, named, made) =
        set_row-ok stored (b.update_username s (o.scan_uuid id) stored).0 user is_set in
      let (there, _) = laws.username_is_set s (o.scan_uuid id) stored row returned in
      (
        row,
        laws.username_was_null s (o.scan_uuid id) stored row returned,
        ap (λ (t : S). b.get_by_id t (o.scan_uuid id)) after ∙ there,
        named,
        made,
      )

  refused_again :
      (laws : Laws b) (draws : List ℕ) (id : ℕ) (name : Text) (s : S) (row : Row) (held : Text)
      → b.get_by_id s (o.scan_uuid id) ≡ some row
      → row.username ≡ some held
      → is_ok (set_username b o draws id name s).0 ≡ false
  refused_again laws draws id name s row held there has_name =
      go (set_username b o draws id name s).0 refl
    where
      go :
          (r : Result ServiceError User)
          → (set_username b o draws id name s).0 ≡ r
          → is_ok r ≡ false
      go (err e) h = refl
      go (ok user) h =
          let (_, (old, found, null), _, _, _) = updated laws draws id name s user h in
          absurd (ground (arith, found, there, null, has_name))

  -- A name is set once: if an ASCII name is accepted, then the user's row had no name and no row had
  -- that name, what is stored and returned is the name in lower case without trailing spaces, which
  -- has three to ten bytes of [a-z0-9_], and after that no call gives the same user a name.
  pub set_username_once :
      (laws : Laws b) (draws : List ℕ) (id : ℕ) (name : Text) (s : S) (user : User)
      → is_ascii name ≡ true
      → (set_username b o draws id name s).0 ≡ ok user
      → let stored = normal_name o.unicode_lower name in
        let s' = (set_username b o draws id name s).1 in
        ((old : Row) × (b.get_by_id s (o.scan_uuid id) ≡ some old) × (old.username ≡ none))
        × (b.get_by_username s stored ≡ none)
        × (user.username ≡ stored)
        × IsName stored
        × ((row : Row) × (b.get_by_id s' (o.scan_uuid id) ≡ some row)
            × (row.username ≡ some stored))
        × ((more : List ℕ) (other : Text) → is_ok (set_username b o more id other s').0 ≡ false)
  unfolding user_of_row
  set_username_once laws draws id name s user ascii h =
      let s' = (set_username b o draws id name s).1 in
      let (fine, unused, _, _, _) = accepted draws id name s user h in
      let (row, was_null, there, named, made) = updated laws draws id name s user h in
      (
        was_null,
        unused,
        ap (λ (u : User). u.username) made ∙ ap or_empty named,
        (validate_username_iff o.unicode_lower name ascii).0 fine,
        (row, there, named),
        λ more other.
            refused_again laws more id other s' row (normal_name o.unicode_lower name) there named,
      )
