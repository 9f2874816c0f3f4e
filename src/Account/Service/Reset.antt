-- ===== src/Account/Service/Reset.antt =====
-- The reset of a password: what it leaves behind, and once for each token.
use quiz.Prelude.{
  ℕ, ◌≡◌, refl, sym, ap, ◌∙◌, subst, arith, inl, inr, true, false, nat_eq, Text, Result, ok, is_ok,
  Bool-cases, Result-cases, ltb, length,
}
use quiz.Account.Store.{Fetched, found, missing, broken, Backend, Laws}
use quiz.Account.Service.{
  ServiceError, ResetData, not_json, no_user_id, no_uuid, user_of_reset, Outside, hash_password,
  reset_key, change_password, reset_with, reset_password,
}

module _ {S : Type 0} (b : Backend S) (o : Outside) where
  changed :
      (token : Text) (id : ℕ) (hash : Text) (s : S)
      → (change_password b o token id hash s).0 ≡ ok tt
      → let s' = (b.update_password s (o.scan_uuid id) hash).1 in
        ((b.update_password s (o.scan_uuid id) hash).0 ≡ true)
        × ((change_password b o token id hash s).1 ≡ (b.del_key s' (reset_key token)).1)
  unfolding change_password
  changed token id hash s h = elim (Bool-cases (b.update_password s (o.scan_uuid id) hash).0) [
    | inl done ↦ (done, ground arith)
    | inr failed ↦ absurd (ground arith)
  ]

  -- What a reset has found and done, if it succeeds.
  abbrev DidReset : Text → Text → S → S → Type 0
  DidReset token password s after =
      (id : ℕ) × (hash : Text) × (json : Text) × (b.get_key s (reset_key token) ≡ found json)
      × (o.decode_reset json ≡ user_of_reset id)
      × (hash_password o password ≡ ok hash)
      × ((b.update_password s (o.scan_uuid id) hash).0 ≡ true)
      × (after ≡ (b.del_key (b.update_password s (o.scan_uuid id) hash).1 (reset_key token)).1)

  reset_data :
      (token password json : Text) (s : S) (data_ : ResetData)
      → b.get_key s (reset_key token) ≡ found json
      → o.decode_reset json ≡ data_
      → (reset_with b o token password s (found json)).0 ≡ ok tt
      → DidReset token password s (reset_with b o token password s (found json)).1
  unfolding reset_with
  reset_data token password json s not_json there e h = absurd (ground (arith, e))
  reset_data token password json s no_user_id there e h = absurd (ground (arith, e))
  reset_data token password json s no_uuid there e h = absurd (ground (arith, e))
  reset_data token password json s (user_of_reset id) there e h =
      elim (Result-cases (hash_password o password)) [
        | inr (f, bad) ↦ absurd (ground (arith, e))
        | inl (hash, good) ↦
            let (done, after) = changed token id hash s (ground (arith, e)) in
            (id, hash, json, there, e, good, done, ground (arith, e, after))
      ]

  reset_found :
      (token password : Text) (s : S) (f : Fetched)
      → b.get_key s (reset_key token) ≡ f
      → (reset_with b o token password s f).0 ≡ ok tt
      → DidReset token password s (reset_with b o token password s f).1
  unfolding reset_with
  reset_found token password s missing there h = absurd (cc)
  reset_found token password s broken there h = absurd (cc)
  reset_found token password s (found json) there h =
      reset_data token password json s (o.decode_reset json) there refl h

  reached :
      (token password : Text) (s : S)
      → (reset_password b o token password s).0 ≡ ok tt
      → reset_password b o token password s
        ≡ reset_with b o token password s (b.get_key s (reset_key token))
  unfolding reset_password
  reached token password s h = elim (Bool-cases o.has_redis) [
    | inr off ↦ absurd (ground arith)
    | inl on ↦ elim (Bool-cases (ltb (length password) 8)) [
      | inl short ↦ absurd (ground arith)
      | inr long ↦ ground arith
    ]
  ]

  completed :
      (token password : Text) (s : S)
      → (reset_password b o token password s).0 ≡ ok tt
      → DidReset token password s (reset_password b o token password s).1
  completed token password s h =
      let same = reached token password s h in
      subst (λ (r : Result ServiceError (Unit {0}) × S). DidReset token password s r.1) (sym same)
        (reset_found token password s (b.get_key s (reset_key token)) refl
          (ap (λ (r : Result ServiceError (Unit {0}) × S). r.0) (sym same) ∙ h))

  refused :
      (token password : Text) (s : S)
      → b.get_key s (reset_key token) ≡ missing
      → (is_ok (reset_password b o token password s).0 ≡ false)
        × ((reset_password b o token password s).1 ≡ s)
  unfolding reset_password reset_with
  refused token password s gone = elim (Bool-cases o.has_redis) [
    | inr off ↦ rw off (refl, refl)
    | inl on ↦ elim (Bool-cases (ltb (length password) 8)) [
      | inl short ↦ rw (on, short) (refl, refl)
      | inr long ↦ rw (on, long, gone) (refl, refl)
    ]
  ]

  -- A token resets a password once: after a reset that has succeeded, any further reset with the
  -- same token fails and changes nothing. This rests on Redis deleting the key when it is asked to:
  -- the code only logs that it has not.
  pub reset_password_once :
      (laws : Laws b) (token password : Text) (s : S)
      → ((s' : S) (k : Text) → (b.del_key s' k).0 ≡ true)
      → (reset_password b o token password s).0 ≡ ok tt
      → (again : Text)
      → let s' = (reset_password b o token password s).1 in
        (is_ok (reset_password b o token again s').0 ≡ false)
        × ((reset_password b o token again s').1 ≡ s')
  reset_password_once laws token password s deletes h again =
      let (id, hash, _, _, _, _, _, after) = completed token password s h in
      let t = (b.update_password s (o.scan_uuid id) hash).1 in
      refused token again (reset_password b o token password s).1 (
        ap (λ (x : S). b.get_key x (reset_key token)) after
        ∙ laws.get-del t (reset_key token) (deletes t (reset_key token)))
