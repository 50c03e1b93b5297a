-- ===== src/Auth/Examples.antt =====
-- A user who signs in, refreshes and changes the password, on whom the theorems on the auth service run.
use helpdesk_microservices.Base.{
  ℕ, ◌≤◌, ◌≡◌, ◌≢◌, ◌⊎◌, refl, inl, inr, true, false, Option, some, String, [], ◌∷◌, Bool, keep,
  find_by, count_by, ok, ◌||◌, ◌=s=◌, eq_iff, pos, pos_part, arith,
}
use helpdesk_microservices.Db.Memory.{create_in, select_in}
use helpdesk_microservices.Http.{Headers}
use helpdesk_microservices.Jwt.{Jwt}
use helpdesk_microservices.Jwt.Sample.{sample_jwt}
use helpdesk_microservices.Numeral.{parse_uint}
use helpdesk_microservices.Auth.Domain.{User, RefreshToken}
use helpdesk_microservices.Auth.Store.{AuthStore}
use helpdesk_microservices.Auth.Memory.{AuthDb, memory_auth, plain_bcrypt}
use helpdesk_microservices.Auth.Sessions.{
  belongs_to, create_session, evict_oldest, rotate, delete_by_user, find_session,
}
use helpdesk_microservices.Auth.Accounts.{
  login, register, change_password, find_user, update_user, find_by_email, create_user,
}
use helpdesk_microservices.Auth.Tokens.{
  Signature, sign_tokens, session_cap, LoginRequest, TokenPair, CreateStaffRequest, RegisterRequest,
  ChangePasswordRequest,
}
use helpdesk_microservices.Auth.Handler.{
  post_login, issue_session, post_refresh, rotate_session, post_register, post_staff,
  post_change_password, caller, internal_only, require_role,
}
use helpdesk_microservices.Auth.Cap.{OthersKept}
use helpdesk_microservices.Auth.Refresh.{
  SignedPair, Account, Refreshed, post_login-LoggedIn, post_refresh-Refreshed, post_refresh-once,
}
use helpdesk_microservices.Auth.Passwords.{
  Registered, sign_ups-Registered, PasswordChanged, post_change_password-PasswordChanged,
}
use helpdesk_microservices.Auth.Bearer.{sign_tokens-refresh}
use helpdesk_microservices.Gateway.Middleware.{bearer_token, auth_middleware}
use helpdesk_microservices.Gateway.Caller.{identified}
use helpdesk_microservices.Tickets.Handler.{require_user}
use helpdesk_microservices.Auth.Routes.{Endpoint, admit, Permitted, admit-Permitted}

abbrev bearing : String → Headers
bearing token = record {
  authorization = token;
  request_id = "";
  internal_secret = "";
  user_id = "1";
  user_role = "admin";
}

abbrev store : AuthStore AuthDb
store = memory_auth 30

-- Tokens of the agent 3, signed at 30.
abbrev jwt : Jwt
jwt = sample_jwt 3 "agent" 7230 604830

abbrev is_email : String → Bool
is_email s = s =s= "ann@desk" || s =s= "bob@desk"

abbrev ann : User
ann = record {
  id = 3;
  name = "Ann";
  email = "ann@desk";
  password = "correct horse";
  department = "IT";
  availability = "offline";
  role = "agent";
}

abbrev session : (id : ℕ) → String → RefreshToken
session id token = record {
  id = id;
  user_id = 3;
  token = token;
  created_at = 30;
  expires_at = some 604830;
}

abbrev signed_out : AuthDb
signed_out = record { users = ann ∷ []; tokens = [] }

abbrev signed_in : AuthDb
signed_in = record signed_out { tokens = session 1 "t1" ∷ [] }

abbrev refreshed : AuthDb
refreshed = record signed_out { tokens = session 1 "t2" ∷ [] }

abbrev pair : String → TokenPair
pair refresh = record { access_token = "access"; refresh_token = refresh }

abbrev ann_signs_in : LoginRequest
ann_signs_in = record { email = "ann@desk"; password = "correct horse" }

post_login-LoggedIn_example :
    (req : LoginRequest) × (user : User) × (◌≡◌ {A = Option LoginRequest}
      (some ann_signs_in)
      (some req))
    × Account store plain_bcrypt is_email jwt "secret" (pos 2) signed_out user req
    × SignedPair jwt "secret" 30 "t1" user.id user.role (pair "t1")
    × (count_by (belongs_to user.id) (store.tokens.rows signed_in) ≤ pos_part (session_cap (pos 2)))
    × OthersKept store user.id signed_out signed_in
unfolding post_login issue_session login find_by_email sign_tokens create_session evict_oldest
    session_cap memory_auth plain_bcrypt create_in select_in sample_jwt keep
post_login-LoggedIn_example =
    post_login-LoggedIn store plain_bcrypt is_email jwt "secret" (pos 2) signed_out signed_in 30
      "t1" (some ann_signs_in) (pair "t1") tt refl

post_refresh-Refreshed_example :
    (token : String) × (◌≡◌ {A = Option String} (some "t1") (some token))
    × Refreshed store plain_bcrypt is_email jwt "secret"
        (pos 2)
        30
        "t2"
        token
        (pair "t2")
        signed_in
        refreshed
unfolding post_refresh rotate_session find_session rotate sign_tokens memory_auth create_in
    sample_jwt keep count_by
post_refresh-Refreshed_example =
    post_refresh-Refreshed store plain_bcrypt is_email jwt "secret" (pos 2) signed_in refreshed 30
      "t2" (some "t1") (pair "t2") refl

post_refresh-once_example :
    post_refresh store plain_bcrypt is_email jwt "secret" (pos 2) refreshed 30 "t3" (some "t1")
    ≢ ok (pair "t3", refreshed)
unfolding post_refresh rotate_session find_session rotate sign_tokens memory_auth create_in
    sample_jwt keep count_by
post_refresh-once_example =
    post_refresh-once store plain_bcrypt is_email jwt "secret" (pos 2) signed_in refreshed refreshed
      30 30 "t2" "t3" "t1" (pair "t2") (pair "t3") other_text refl
  where
    other_text : ◌≢◌ {A = String} "t2" "t1"
    other_text same = let test = (eq_iff "t2" "t1").1 same in cc

abbrev newcomer : RegisterRequest
newcomer = record {
  name = "Ann";
  email = "ann@desk";
  department = "IT";
  password = "correct horse";
}

abbrev registered : AuthDb
registered = record { users = record ann { id = 1; role = "user" } ∷ []; tokens = [] }

abbrev recruit : CreateStaffRequest
recruit = record {
  name = "Bob";
  email = "bob@desk";
  department = "IT";
  password = "correct horse";
  role = "agent";
}

abbrev staffed : AuthDb
staffed = record {
  users =
      record ann { id = 1; role = "user" }
      ∷ record ann { id = 2; email = "bob@desk"; name = "Bob" }
      ∷ [];
  tokens = [];
}

sign_ups-Registered_example :
    (req : RegisterRequest) × (◌≡◌ {A = Option RegisterRequest} (some newcomer) (some req))
    × Registered store plain_bcrypt req.email req.password "user"
        (record registered { users = [] })
        registered
    × (req' : CreateStaffRequest) × (◌≡◌ {A = Option CreateStaffRequest} (some recruit) (some req'))
    × Registered store plain_bcrypt req'.email req'.password req'.role registered staffed
    × ((req'.role ≡ "agent") ⊎ (req'.role ≡ "admin"))
unfolding post_register post_staff register find_by_email create_user memory_auth plain_bcrypt
    create_in
sign_ups-Registered_example =
    sign_ups-Registered store plain_bcrypt is_email (record registered { users = [] }) registered
      staffed 0 0 (some newcomer) (some recruit) "registered" "staff account created" refl refl

abbrev from_ann : Headers
from_ann = record {
  authorization = "";
  request_id = "r1";
  internal_secret = "inside";
  user_id = "3";
  user_role = "admin";
}

abbrev changed : AuthDb
changed = record { users = record ann { password = "battery staple" } ∷ []; tokens = [] }

abbrev new_password : ChangePasswordRequest
new_password = record { old_password = "correct horse"; new_password = "battery staple" }

post_change_password-PasswordChanged_example :
    (user : ℕ) × (req : ChangePasswordRequest) × (caller from_ann ≡ ok user)
    × (◌≡◌ {A = Option ChangePasswordRequest} (some new_password) (some req))
    × PasswordChanged store plain_bcrypt user req.old_password req.new_password signed_in changed
unfolding post_change_password caller parse_uint change_password find_user update_user
    delete_by_user memory_auth plain_bcrypt keep
post_change_password-PasswordChanged_example =
    post_change_password-PasswordChanged store plain_bcrypt is_email signed_in changed 0 from_ann
      (some new_password) "password changed" refl

admit-Permitted_example : Permitted "inside" false true from_ann Endpoint.create_staff
unfolding admit internal_only require_role find_by
admit-Permitted_example =
    admit-Permitted "inside" false true from_ann "POST" "/admin/staff" Endpoint.create_staff refl

abbrev signature : Signature
signature = record { access = "access"; refresh = "t1"; refresh_exp = 604830 }

some_text : (text : String) → (text =s= "") ≡ false → text ≢ ""
some_text text h same = let test = (eq_iff text "").1 same in cc

-- Long after the access token has expired.
sign_tokens-refresh_example :
    (auth_middleware jwt "secret" 600000 (bearing "Bearer t1")
      ≡ ok (identified (bearing "Bearer t1") 3 "agent"))
    × (require_user (identified (bearing "Bearer t1") 3 "agent") ≡ ok (3, "agent"))
unfolding sign_tokens sample_jwt bearer_token
sign_tokens-refresh_example =
    sign_tokens-refresh jwt "secret" "t1" "agent" 30 600000 3 signature (bearing "Bearer t1") refl
      (inr (inl refl)) (λ e. (omega arith)) (omega arith) (some_text "Bearer t1" refl) refl
      (omega arith)
