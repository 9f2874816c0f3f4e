-- ===== src/Account/Store.antt =====
-- What the accounts ask of Postgres and Redis: the queries of internal/db/repository/user_repo.go
-- and the commands of go-redis, as functions on a state. They are parameters; `Laws` states what the
-- SQL of internal/db/sqlc/users.sql.go and the documentation of Redis say of them.
pub mod Single
use quiz.Prelude.{ℕ, ◌≡◌, ◌≢◌, Bool, true, false, Option, none, some, Text}
use quiz.Account.{UserType}

-- A row of the table `users`.
pub record Row : Type 0 where
  pub user_id : ℕ
  pub email : Option Text
  pub password_hash : Option Text
  pub username : Option Text
  pub user_type : UserType

-- `CreateUserParams`
pub record NewUser : Type 0 where
  pub email : Option Text
  pub password_hash : Option Text
  pub username : Option Text
  pub user_type : UserType

-- What `GET` comes to: a value, `redis.Nil`, or another error.
pub data Fetched : Type 0 where
  found : Text → Fetched
  missing broken : Fetched

-- `none` and `false` stand for errors, "no rows" among them; `set_key` has the seconds to live. An
-- identifier is a `pgtype.UUID`, with `none` for NULL.
pub record Backend (S : Type 0) : Type 0 where
  pub get_by_email : S → Text → Option Row
  pub get_by_username : S → Text → Option Row
  pub get_by_id : S → Option ℕ → Option Row
  pub create_user : S → NewUser → Option Row × S
  pub update_username : S → Option ℕ → Text → Option Row × S
  pub update_password : S → Option ℕ → Text → Bool × S
  pub update_login : S → Option ℕ → S
  pub exists_key : S → Text → Option ℕ
  pub set_key : S → Text → Text → ℕ → Bool × S
  pub get_key : S → Text → Fetched
  pub del_key : S → Text → Bool × S

pub record Laws {S : Type 0} (b : Backend S) : Type 0 where
  -- A deleted key is missing.
  pub get-del :
      (s : S) (k : Text) → (b.del_key s k).0 ≡ true → b.get_key (b.del_key s k).1 k ≡ missing
  -- `WHERE user_id = $2 AND username IS NULL RETURNING …`
  pub username_was_null :
      (s : S) (id : Option ℕ) (name : Text) (row : Row)
      → (b.update_username s id name).0 ≡ some row
      → (old : Row) × (b.get_by_id s id ≡ some old) × (old.username ≡ none)
  pub username_is_set :
      (s : S) (id : Option ℕ) (name : Text) (row : Row)
      → (b.update_username s id name).0 ≡ some row
      → (b.get_by_id (b.update_username s id name).1 id ≡ some row) × (row.username ≡ some name)
  -- `WHERE user_id = $1`, which NULL never is.
  pub found_by_id :
      (s : S) (id : Option ℕ) (row : Row) → b.get_by_id s id ≡ some row → id ≡ some row.user_id
  -- `INSERT … RETURNING`, where no other row has the email.
  pub created_row :
      (s : S) (new : NewUser) (row : Row) (email : Text)
      → (b.create_user s new).0 ≡ some row
      → new.email ≡ some email
      → (b.get_by_email (b.create_user s new).1 email ≡ some row)
        × (row.email ≡ new.email)
        × (row.password_hash ≡ new.password_hash)
        × (row.user_type ≡ new.user_type)
  -- `WHERE user_id = $2`, which NULL never is.
  pub nobody_rehashed :
      (s : S) (hash email : Text)
      → b.get_by_email (b.update_password s none hash).1 email ≡ b.get_by_email s email
  -- The keys of Redis are apart from the rows of Postgres.
  pub del_key-rows :
      (s : S) (k email : Text) → b.get_by_email (b.del_key s k).1 email ≡ b.get_by_email s email
