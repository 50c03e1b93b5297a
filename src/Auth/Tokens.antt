-- ===== src/Auth/Tokens.antt =====
-- signTokens of the auth handler, and the limits and shapes of its requests. `jti` is the random id of
-- a refresh token; `is_email` is the validator's `email` tag, lengths count characters.
use Prim.Native.String.{count}
use helpdesk_microservices.Base.{
  ℕ, ◌+◌, ◌*◌, ltb, leb, ◌=s=◌, Bool, not, ◌&&◌, Option, none, some, String, if◌then◌else◌, ℤ, pos,
  negsuc,
}
use helpdesk_microservices.Jwt.{Claim, Claims, Jwt}
use helpdesk_microservices.Auth.Domain.{User}

abbrev pub access_token_ttl : ℕ
access_token_ttl = 2 * 3600

abbrev pub refresh_token_ttl : ℕ
refresh_token_ttl = 7 * 24 * 3600

abbrev pub access_claims : (user : ℕ) → (role : String) → (now : ℕ) → Claims
access_claims user role now = record {
  user_id = some (Claim.number user);
  role = some (Claim.text role);
  exp = some (now + access_token_ttl);
  jti = none;
}

abbrev pub refresh_claims : (user : ℕ) → (role : String) → (now : ℕ) → (jti : String) → Claims
refresh_claims user role now jti = record {
  user_id = some (Claim.number user);
  role = some (Claim.text role);
  exp = some (now + refresh_token_ttl);
  jti = some jti;
}

pub record Signature : Type 0 where
  pub access : String
  pub refresh : String
  pub refresh_exp : ℕ

unfoldable pub sign_tokens :
    Jwt
    → (secret : String) → (now : ℕ) → (jti : String) → (user : ℕ) → (role : String)
    → Option Signature
sign_tokens jwt secret now jti user role = elim (jwt.sign secret (access_claims user role now)) [
  | none ↦ none
  | some access ↦ elim (jwt.sign secret (refresh_claims user role now jti)) [
    | none ↦ none
    | some refresh ↦
        some (record { access = access; refresh = refresh; refresh_exp = now + refresh_token_ttl })
  ]
]

-- What login and refresh answer.
pub record TokenPair : Type 0 where
  pub access_token : String
  pub refresh_token : String

abbrev default_max_sessions : ℤ
default_max_sessions = pos 5

unfoldable pub session_cap : ℤ → ℤ
session_cap (pos n) = if ltb 0 n then pos n else default_max_sessions
session_cap (negsuc n) = default_max_sessions

pub record RegisterRequest : Type 0 where
  pub name : String
  pub email : String
  pub department : String
  pub password : String

pub record LoginRequest : Type 0 where
  pub email : String
  pub password : String

pub record CreateStaffRequest : Type 0 where
  pub name : String
  pub email : String
  pub department : String
  pub password : String
  pub role : String

pub record ChangePasswordRequest : Type 0 where
  pub old_password : String
  pub new_password : String

pub record UpdateProfileRequest : Type 0 where
  pub name : String
  pub department : String

-- The binding tags.
abbrev pub valid_password : String → Bool
valid_password p = not (p =s= "") && leb 8 (count p) && leb (count p) 72

abbrev pub valid_register : (is_email : String → Bool) → RegisterRequest → Bool
valid_register is_email r =
    (not (r.name =s= "") && leb 1 (count r.name) && leb (count r.name) 100)
    && (not (r.email =s= "") && is_email r.email)
    && (not (r.department =s= "") && leb (count r.department) 100)
    && valid_password r.password

abbrev pub valid_login : (is_email : String → Bool) → LoginRequest → Bool
valid_login is_email r =
    (not (r.email =s= "") && is_email r.email)
    && (not (r.password =s= "") && leb (count r.password) 72)

abbrev pub valid_staff : (is_email : String → Bool) → CreateStaffRequest → Bool
valid_staff is_email r =
    leb (count r.name) 100
    && (not (r.email =s= "") && is_email r.email)
    && leb (count r.department) 100
    && valid_password r.password
    && not (r.role =s= "")

abbrev pub valid_change : ChangePasswordRequest → Bool
valid_change r = not (r.old_password =s= "") && valid_password r.new_password

abbrev pub valid_profile : UpdateProfileRequest → Bool
valid_profile r =
    (not (r.name =s= "") && leb 1 (count r.name) && leb (count r.name) 100)
    && leb (count r.department) 100

-- A user without the password hash.
pub record UserResponse : Type 0 where
  pub id : ℕ
  pub name : String
  pub email : String
  pub department : String
  pub availability : String
  pub role : String

unfoldable pub to_user_response : User → UserResponse
to_user_response u = record {
  id = u.id;
  name = u.name;
  email = u.email;
  department = u.department;
  availability = u.availability;
  role = u.role;
}
