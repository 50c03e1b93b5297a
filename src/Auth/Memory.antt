-- ===== src/Auth/Memory.antt =====
-- An auth store and a bcrypt in memory: the interfaces can be met.
use helpdesk_microservices.Base.{
  true, ℕ, ◌≡◌, refl, sym, ap, ok, ok-injective, some, List, String, ◌=s=◌, eq_refl, eq_iff, arith,
  Option,
}
use helpdesk_microservices.Db.{Table}
use helpdesk_microservices.Db.Memory.{memory_table}
use helpdesk_microservices.Auth.Domain.{User, RefreshToken, user_defaults, token_defaults}
use helpdesk_microservices.Auth.Store.{AuthStore, Bcrypt}

pub record AuthDb : Type 0 where
  pub users : List User
  pub tokens : List RefreshToken

pub same_password : (p h : String) → ◌≡◌ {A = Option String} (some p) (some h) → (h =s= p) ≡ true
same_password p h e = ground (arith, e, eq_refl h, eq_iff h p)

-- The hash of a password is the password.
unfoldable pub plain_bcrypt : Bcrypt
plain_bcrypt = record {
  hash = λ salt p. some p;
  compare = λ h p. h =s= p;
  hash_compare = λ salt p h e. same_password p h e;
}

module _ (now : ℕ) where
  abbrev pub users_table : Table AuthDb User (λ u. u.id) user_defaults
  users_table =
      memory_table (λ d. d.users) (λ d rs. record d { users = rs }) (λ d rs. refl) (λ u. u.id)
        user_defaults now

  abbrev pub tokens_table : Table AuthDb RefreshToken (λ t. t.id) token_defaults
  tokens_table =
      memory_table (λ d. d.tokens) (λ d rs. record d { tokens = rs }) (λ d rs. refl) (λ t. t.id)
        token_defaults now

  -- The hash of a token is the token.
  unfoldable pub memory_auth : AuthStore AuthDb
  unfolding memory_table
  memory_auth = record {
    users = users_table;
    tokens = tokens_table;
    transaction = λ d body. body d;
    advisory_lock = λ d key. ok d;
    hash_token = λ t. t;
    transaction_body = λ d e body h. h;
    lock_keeps = λ d e key h. ap (λ (m : AuthDb). m.tokens) (sym (ok-injective h));
    users_updates_keep = λ d e p f h. ap (λ (m : AuthDb). m.tokens) (sym (ok-injective h));
    tokens_delete_keeps = λ d e p n h. ap (λ (r : ℕ × AuthDb). r.1.users) (sym (ok-injective h));
  }
