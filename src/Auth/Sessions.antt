-- ===== src/Auth/Sessions.antt =====
-- refresh_token_repository.go. `now` is the clock of the database.
use helpdesk_microservices.Base.{
  ℕ, ◌+◌, ◌*◌, ◌/◌, ◌%◌, ◌^◌, ltb, ◌==◌, ◌=s=◌, Bool, false, not, ◌&&◌, none, some, String, map,
  Result, ok, ◌>>=◌, ◌>>◌, guard, lift, if◌then◌else◌, ℤ, pos, pos_part,
}
use helpdesk_microservices.Db.{DbError, desc, Query}
use helpdesk_microservices.Db.Counts.{contains}
use helpdesk_microservices.Auth.Domain.{RefreshToken}
use helpdesk_microservices.Auth.Store.{SessionError, token_not_found, database, AuthStore}

-- `expires_at IS NOT NULL AND expires_at < now()`
abbrev pub is_expired : ℕ → RefreshToken → Bool
is_expired now t = elim t.expires_at [ none ↦ false | some at ↦ ltb at now ]

abbrev pub belongs_to : ℕ → RefreshToken → Bool
belongs_to user t = t.user_id == user

-- `1<<40 | user`, for ids below 2 ^ 63: bit 40 is set if it is not.
unfoldable pub session_lock_key : ℕ → ℕ
session_lock_key user = if (user / 2 ^ 40) % 2 == 1 then user else user + 2 ^ 40

-- `ORDER BY created_at DESC, id DESC LIMIT ?`: ids being below 2 ^ 64, one key orders by both.
abbrev pub newest_sessions : ℕ → ℕ → Query RefreshToken
newest_sessions user max_sessions = record {
  matching = belongs_to user;
  sort_key = λ t. t.created_at * 2 ^ 64 + t.id;
  direction = desc;
  limit = some max_sessions;
  offset = pos 0;
}

module _ {Db : Type 0} (store : AuthStore Db) where
  abbrev pub has_token : String → RefreshToken → Bool
  has_token token t = t.token =s= store.hash_token token

  unfoldable pub find_session : Db → (token : String) → Result DbError RefreshToken
  find_session d token = store.tokens.first_where d (has_token token)

  -- The sessions of the user beyond the newest `max_sessions` are dropped.
  unfoldable pub evict_oldest : Db → (user max_sessions : ℕ) → Result SessionError Db
  evict_oldest tx user max_sessions = do
    kept ← lift database (store.tokens.find tx (newest_sessions user max_sessions))
    (_, tx') ← lift database (
        store.tokens.delete tx
          (λ t. belongs_to user t && not (contains (map (λ (k : RefreshToken). k.id) kept) t.id)))
    ok tx'

  unfoldable pub create_session :
      Db → ℕ → RefreshToken → (max_sessions : ℤ) → Result SessionError Db
  unfolding evict_oldest session_lock_key
  create_session d now token max_sessions = store.transaction d λ tx. do
    locked ← lift database (store.advisory_lock tx (session_lock_key token.user_id))
    (_, added) ←
        lift database
          (store.tokens.create locked (record token { token = store.hash_token token.token }))
    (_, fresh) ←
        lift database
          (store.tokens.delete added (λ t. belongs_to token.user_id t && is_expired now t))
    (if pos_part max_sessions == 0
        then ok fresh
        else evict_oldest fresh token.user_id (pos_part max_sessions))

  unfoldable pub rotate : Db → (old_token : String) → RefreshToken → Result SessionError Db
  rotate d old_token next = store.transaction d λ tx. do
    (affected, tx') ← lift database (store.tokens.delete tx (has_token old_token))
    guard (affected == 1) token_not_found
    (_, tx'') ←
        lift database
          (store.tokens.create tx' (record next { token = store.hash_token next.token }))
    ok tx''

  unfoldable pub delete_session : Db → ℕ → (token : String) → Result DbError Db
  delete_session d user token = do
    (_, d') ← store.tokens.delete d (λ t. belongs_to user t && has_token token t)
    ok d'

  unfoldable pub delete_by_user : Db → ℕ → Result DbError Db
  delete_by_user d user = do (_, d') ← store.tokens.delete d (belongs_to user); ok d'
