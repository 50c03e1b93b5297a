-- ===== src/Auth/Domain.antt =====
-- internal/domain of the auth service. Instants are natural numbers of seconds.
use helpdesk_microservices.Base.{ℕ, ◌==◌, ◌=s=◌, Option, String, if◌then◌else◌}

pub record User : Type 0 where
  pub id : ℕ
  pub name : String
  pub email : String
  pub password : String
  pub department : String
  pub availability : String
  pub role : String

abbrev pub user_defaults : ℕ → ℕ → User → User
user_defaults id now u = record u {
  id = if u.id == 0 then id else u.id;
  availability = if u.availability =s= "" then "offline" else u.availability;
}

-- One session; `token` is the hash of the refresh token once it is stored.
pub record RefreshToken : Type 0 where
  pub id : ℕ
  pub user_id : ℕ
  pub token : String
  pub created_at : ℕ
  pub expires_at : Option ℕ

abbrev pub token_defaults : ℕ → ℕ → RefreshToken → RefreshToken
token_defaults id now t = record t {
  id = if t.id == 0 then id else t.id;
  created_at = if t.created_at == 0 then now else t.created_at;
}
