-- ===== src/Auth/Store.antt =====
-- What the auth service relies on: the two tables, transactions and the advisory lock of PostgreSQL,
-- SHA-256 and bcrypt.
use helpdesk_microservices.Base.{ℕ, ◌≡◌, Bool, true, Option, some, String, Result, ok}
use helpdesk_microservices.Db.{DbError, Table}
use helpdesk_microservices.Auth.Domain.{User, RefreshToken, user_defaults, token_defaults}

-- ErrTokenNotFound, or an error of the database.
pub data SessionError : Type 0 where
  token_not_found : SessionError
  database : DbError → SessionError

-- The frame laws say that neither table touches the other; `hash_token` is the hexadecimal SHA-256.
pub record AuthStore (Db : Type 0) : Type 0 where
  pub users : Table Db User (λ u. u.id) user_defaults
  pub tokens : Table Db RefreshToken (λ t. t.id) token_defaults
  pub transaction : Db → (Db → Result SessionError Db) → Result SessionError Db
  pub advisory_lock : Db → (key : ℕ) → Result DbError Db
  pub hash_token : String → String
  pub transaction_body :
      (d e : Db) (body : Db → Result SessionError Db) → transaction d body ≡ ok e → body d ≡ ok e
  pub lock_keeps : (d e : Db) (key : ℕ) → advisory_lock d key ≡ ok e → tokens.rows e ≡ tokens.rows d
  pub users_updates_keep :
      (d e : Db) (p : User → Bool) (f : User → User)
      → users.updates d p f ≡ ok e
      → tokens.rows e ≡ tokens.rows d
  pub tokens_delete_keeps :
      (d e : Db) (p : RefreshToken → Bool) (n : ℕ)
      → tokens.delete d p ≡ ok (n, e)
      → users.rows e ≡ users.rows d

-- bcrypt: the hash of a password, which may fail, matches that password. `salt` is the randomness.
pub record Bcrypt : Type 0 where
  pub hash : (salt : ℕ) → (password : String) → Option String
  pub compare : (hashed password : String) → Bool
  pub hash_compare :
      (salt : ℕ) (password hashed : String)
      → hash salt password ≡ some hashed
      → compare hashed password ≡ true
