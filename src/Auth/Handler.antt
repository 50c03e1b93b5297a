-- ===== src/Auth/Handler.antt =====
-- handler.go of the auth service: the endpoints, and the middleware and routes in front of them. An
-- endpoint that refuses leaves the database as it was. `now` is the clock, `salt` and `jti` are the
-- randomness of bcrypt and of the refresh token.
use helpdesk_microservices.Base.{
  ℕ, ◌==◌, ◌=s=◌, Bool, not, ◌||◌, Option, none, some, String, List, map, Result, ok, err, ◌>>=◌,
  ◌>>◌, guard, if◌then◌else◌, ℤ,
}
use helpdesk_microservices.Http.{Headers, Refusal, refusal, answer, bind_json, or_refuse}
use helpdesk_microservices.Jwt.{Claim, Jwt, hmac_only}
use helpdesk_microservices.Numeral.{parse_uint}
use helpdesk_microservices.Auth.Domain.{RefreshToken}
use helpdesk_microservices.Auth.Store.{SessionError, token_not_found, database, AuthStore, Bcrypt}
use helpdesk_microservices.Auth.Sessions.{
  find_session, create_session, rotate, delete_session, delete_by_user,
}
use helpdesk_microservices.Auth.Accounts.{
  AuthError, email_taken, wrong_password, invalid_availability, register, login, change_password,
  update_profile, update_availability, find_user, find_by_role,
}
use helpdesk_microservices.Auth.Tokens.{
  Signature, sign_tokens, TokenPair, session_cap, RegisterRequest, LoginRequest, CreateStaffRequest,
  ChangePasswordRequest, UpdateProfileRequest, valid_register, valid_login, valid_staff,
  valid_change, valid_profile, UserResponse, to_user_response,
}

abbrev pub invalid_input : Refusal
invalid_input = refusal 400 "invalid input" "bad_request"

abbrev pub unauthorized : String → Refusal
unauthorized message = refusal 401 message "unauthorized"

abbrev pub internal_error : String → Refusal
internal_error message = refusal 500 message "internal_error"

-- InternalOnlyMiddleware and RequireRole.
unfoldable pub internal_only : (secret : String) → Headers → Result Refusal (Unit {0})
internal_only secret h =
    guard (not (h.internal_secret =s= "" || not (h.internal_secret =s= secret)))
      (refusal 403 "forbidden" "forbidden")

unfoldable pub require_role : (role : String) → Headers → Result Refusal (Unit {0})
require_role role h = guard (h.user_role =s= role) (refusal 403 "forbidden" "forbidden")

-- The caller of the endpoints for one's own account.
unfoldable pub caller : Headers → Result Refusal ℕ
caller h = do
  guard (not (h.user_id =s= "")) (unauthorized "unauthorized")
  or_refuse (parse_uint h.user_id) (unauthorized "unauthorized")

-- `claims["user_id"].(float64)` and `claims["role"].(string)`
abbrev pub as_number : Option Claim → Option ℕ
as_number (some (Claim.number n)) = some n
as_number _ = none

abbrev pub as_text : Option Claim → String
as_text (some (Claim.text s)) = s
as_text _ = ""

abbrev pub register_refusal : String → AuthError → Refusal
register_refusal message email_taken = refusal 409 "email already registered" "conflict"
register_refusal message _ = internal_error message

abbrev pub change_refusal : AuthError → Refusal
change_refusal wrong_password = unauthorized "wrong password"
change_refusal _ = internal_error "failed to change password"

abbrev pub availability_refusal : AuthError → Refusal
availability_refusal invalid_availability = refusal 400 "invalid availability value" "bad_request"
availability_refusal _ = internal_error "failed to update availability"

abbrev pub rotate_refusal : SessionError → Refusal
rotate_refusal token_not_found = unauthorized "invalid refresh token"
rotate_refusal (database _) = internal_error "failed to refresh session"

abbrev pub new_session : ℕ → Signature → RefreshToken
new_session user s = record {
  id = 0;
  user_id = user;
  token = s.refresh;
  created_at = 0;
  expires_at = some s.refresh_exp;
}

abbrev pub pair_of : Signature → TokenPair
pair_of s = record { access_token = s.access; refresh_token = s.refresh }

module _ {Db : Type 0} (store : AuthStore Db) where
  -- The body is optional: with a refresh token one session ends, without one all of them.
  unfoldable pub post_logout :
      Db → Headers → (refresh_token : String) → Result Refusal (String × Db)
  post_logout d h refresh_token = do
    guard (not (h.user_id =s= "")) (unauthorized "unauthorized")
    user ← or_refuse (parse_uint h.user_id) (refusal 400 "invalid user id format" "bad_request")
    d' ←
        answer (λ _. internal_error "failed logout")
          (if not (refresh_token =s= "")
            then delete_session store d user refresh_token
            else delete_by_user store d user)
    ok ("logged out", d')

  unfoldable pub get_me : Db → Headers → Result Refusal UserResponse
  unfolding caller
  get_me d h = do
    user ← caller h
    u ← answer (λ _. refusal 404 "user not found" "not_found") (find_user store d user)
    ok (to_user_response u)

  unfoldable pub patch_me :
      Db → Headers → Option UpdateProfileRequest → Result Refusal (UserResponse × Db)
  unfolding caller
  patch_me d h body = do
    user ← caller h
    req ← bind_json valid_profile invalid_input body
    (u, d') ←
        answer (λ _. internal_error "failed to update profile")
          (update_profile store d user req.name req.department)
    ok (to_user_response u, d')

  unfoldable pub patch_availability :
      Db → Headers → Option String → Result Refusal (UserResponse × Db)
  unfolding caller
  patch_availability d h body = do
    user ← caller h
    availability ← bind_json (λ a. not (a =s= "")) invalid_input body
    (u, d') ← answer availability_refusal (update_availability store d user availability)
    ok (to_user_response u, d')

  unfoldable pub get_agents : Db → Result Refusal (List UserResponse)
  get_agents d = do
    users ← answer (λ _. internal_error "failed to list agents") (find_by_role store d "agent")
    ok (map to_user_response users)

  module _ (bcrypt : Bcrypt) (is_email : String → Bool) where
    unfoldable pub post_register :
        Db → (salt : ℕ) → Option RegisterRequest → Result Refusal (String × Db)
    post_register d salt body = do
      req ← bind_json (valid_register is_email) invalid_input body
      d' ←
          answer (register_refusal "failed to register")
            (register store bcrypt d salt req.name req.email req.password req.department "user")
      ok ("registered", d')

    unfoldable pub post_staff :
        Db → (salt : ℕ) → Option CreateStaffRequest → Result Refusal (String × Db)
    post_staff d salt body = do
      req ← bind_json (valid_staff is_email) invalid_input body
      guard (req.role =s= "agent" || req.role =s= "admin")
          (refusal 400 "role must be agent or admin" "bad_request")
      d' ←
          answer (register_refusal "failed to create staff account")
            (register store bcrypt d salt req.name req.email req.password req.department req.role)
      ok ("staff account created", d')

    -- A failure to revoke the sessions is only logged.
    unfoldable pub post_change_password :
        Db → (salt : ℕ) → Headers → Option ChangePasswordRequest → Result Refusal (String × Db)
    unfolding caller
    post_change_password d salt h body = do
      user ← caller h
      req ← bind_json valid_change invalid_input body
      d' ←
          answer change_refusal
            (change_password store bcrypt d salt user req.old_password req.new_password)
      ok ("password changed", elim (delete_by_user store d' user) [ ok d'' ↦ d'' | err _ ↦ d' ])

    module _ (jwt : Jwt) (secret : String) (max_sessions : ℤ) where
      unfoldable pub issue_session :
          Db → ℕ → (jti : String) → (user : ℕ) → (role : String) → Result Refusal (TokenPair × Db)
      unfolding session_cap
      issue_session d now jti user role = do
        s ←
            or_refuse (sign_tokens jwt secret now jti user role)
              (internal_error "failed to process session")
        d' ←
            answer (λ _. internal_error "failed to process session")
              (create_session store d now (new_session user s) (session_cap max_sessions))
        ok (pair_of s, d')

      unfoldable pub post_login :
          Db → ℕ → (jti : String) → Option LoginRequest → Result Refusal (TokenPair × Db)
      unfolding issue_session
      post_login d now jti body = do
        req ← bind_json (valid_login is_email) invalid_input body
        user ←
            answer (λ _. unauthorized "invalid credentials")
              (login store bcrypt d req.email req.password)
        issue_session d now jti user.id user.role

      unfoldable pub rotate_session :
          Db
          → ℕ
          → (jti old_refresh : String) → (user : ℕ) → (role : String)
          → Result Refusal (TokenPair × Db)
      rotate_session d now jti old_refresh user role = do
        s ←
            or_refuse (sign_tokens jwt secret now jti user role)
              (internal_error "failed to refresh session")
        d' ← answer rotate_refusal (rotate store d old_refresh (new_session user s))
        ok (pair_of s, d')

      unfoldable pub post_refresh :
          Db → ℕ → (jti : String) → Option String → Result Refusal (TokenPair × Db)
      unfolding rotate_session
      post_refresh d now jti body = do
        token ← bind_json (λ t. not (t =s= "")) invalid_input body
        session ← answer (λ _. unauthorized "invalid refresh token") (find_session store d token)
        claims ←
            or_refuse (jwt.parse (hmac_only secret) now token)
              (unauthorized "expired refresh token")
        user ← or_refuse (as_number claims.user_id) (unauthorized "invalid refresh token")
        guard (session.user_id == user) (unauthorized "invalid refresh token")
        rotate_session d now jti token user (as_text claims.role)
