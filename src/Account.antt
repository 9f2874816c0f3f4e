-- ===== src/Account.antt =====
-- internal/auth: accounts, names, tokens and the middleware. The types of internal/auth/types.go
-- that more than one of these parts uses.
pub mod Names
pub mod Tokens
pub mod Middleware
pub mod Store
pub mod Service
use quiz.Prelude.{ℕ, Bool, true, false, Option, Text}

-- The values of the column `user_type`.
pub data UserType : Type 0 where
  registered guest : UserType

abbrev pub is_guest_type : UserType → Bool
is_guest_type registered = false
is_guest_type guest = true

pub record User : Type 0 where
  pub id : ℕ
  pub email : Option Text
  pub username : Text
  pub user_type : UserType
  pub is_guest : Bool

pub record TokenPair : Type 0 where
  pub access_token : Text
  pub refresh_token : Text
  pub expires_in : ℕ
