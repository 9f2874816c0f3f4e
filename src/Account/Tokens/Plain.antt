-- ===== src/Account/Tokens/Plain.antt =====
-- A signer that writes the claims and the secret into the token as they are: it keeps the laws.
use quiz.Prelude.{
  ℕ, suc, zero, ◌≡◌, refl, ap, ◌∙◌, arith, Bool, true, false, not, Option, none, some, List, [],
  ◌∷◌, ◌++◌, map, if◌then◌else◌, ◌==◌, nat_eq, text_eq, text_beq_iff, beq_self, ltb, Text,
}
use quiz.Account.{UserType, registered, guest}
use quiz.Account.Tokens.{Claims, Parsed, parsed, expired, failed, Jwt, Laws}

-- Each field ends with a zero, and its bytes are counted from one.
abbrev pack : List Text → Text
pack [] = []
pack (field ∷ fields) = map suc field ++ (0 ∷ pack fields)

abbrev onto_first : ℕ → List Text → List Text
onto_first c [] = []
onto_first c (field ∷ fields) = (c ∷ field) ∷ fields

abbrev unpack : Text → List Text
unpack [] = []
unpack (zero ∷ t) = [] ∷ unpack t
unpack (suc c ∷ t) = onto_first c (unpack t)

unpack-field : (field rest : Text) → unpack (map suc field ++ (0 ∷ rest)) ≡ field ∷ unpack rest
unpack-field [] rest = refl
unpack-field (c ∷ field) rest = ap (onto_first c) (unpack-field field rest)

unpack-pack : (fields : List Text) → unpack (pack fields) ≡ fields
unpack-pack [] = refl
unpack-pack (field ∷ fields) =
    unpack-field field (pack fields) ∙ ap (λ (fs : List Text). field ∷ fs) (unpack-pack fields)

abbrev flag : Bool → ℕ
flag false = 0
flag true = 1

abbrev type_flag : UserType → ℕ
type_flag registered = 0
type_flag guest = 1

abbrev type_of : ℕ → UserType
type_of zero = registered
type_of (suc n) = guest

abbrev fields_of : Claims → Text → List Text
fields_of c k =
    k
    ∷ (c.user_id
        ∷ type_flag c.user_type
        ∷ flag c.is_guest
        ∷ c.expires_at
        ∷ c.issued_at
        ∷ c.not_before
        ∷ [])
    ∷ c.email
    ∷ c.username
    ∷ c.issuer
    ∷ c.subject
    ∷ []

abbrev claims_in : List Text → Option (Claims × Text)
claims_in
      (k
        ∷ (id ∷ kind ∷ is_guest ∷ expires ∷ issued ∷ from ∷ [])
        ∷ email
        ∷ username
        ∷ issuer
        ∷ subject
        ∷ []) =
    some (
      record {
        user_id = id;
        email = email;
        username = username;
        user_type = type_of kind;
        is_guest = not (is_guest == 0);
        issuer = issuer;
        subject = subject;
        expires_at = expires;
        issued_at = issued;
        not_before = from;
      },
      k,
    )
claims_in _ = none

type_of-flag : (t : UserType) → type_of (type_flag t) ≡ t
type_of-flag registered = refl
type_of-flag guest = refl

flag-set : (b : Bool) → not (flag b == 0) ≡ b
flag-set true = refl
flag-set false = refl

claims_in-fields : (c : Claims) (k : Text) → claims_in (fields_of c k) ≡ some (c, k)
claims_in-fields c k = rw (type_of-flag c.user_type, flag-set c.is_guest) refl

abbrev check : ℕ → Option (Claims × Text) → Option Text → Parsed
check now none secret = failed
check now (some (c, k)) none = failed
check now (some (c, k)) (some l) =
    if not (k == l)
    then failed
    else if ltb now c.not_before
    then failed
    else if ltb now c.expires_at
    then parsed c true
    else expired

abbrev pub plain : Jwt
plain = record {
  signed_string = λ c k. some (pack (fields_of c k));
  is_hmac = λ t. true;
  parse = λ now t secret. check now (claims_in (unpack t)) secret;
}

read_back :
    (c : Claims) (k t : Text)
    → plain.signed_string c k ≡ some t
    → claims_in (unpack t) ≡ some (c, k)
read_back c k t s =
    let same : t ≡ pack (fields_of c k) = ground arith in
    ap (λ (x : Text). claims_in (unpack x)) same
    ∙ ap claims_in (unpack-pack (fields_of c k))
    ∙ claims_in-fields c k

pub plain-Laws : Laws plain
plain-Laws = record {
  signs_hmac = λ c k t s. refl;
  reads_back = λ c k t now s from until. rw (read_back c k t s) (ground (arith, beq_self k));
  expires = λ c k t now s from until. rw (read_back c k t s) (ground (arith, beq_self k));
  authentic = λ c k l t now s differ. rw (read_back c k t s) (ground (arith, text_beq_iff k l));
}
