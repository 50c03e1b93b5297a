-- ===== src/Auth/Refresh.antt =====
-- What a login and a refresh give, and to whom.
use mathlib.Core.List.{Memᴰ}
use helpdesk_microservices.Base.{
  ℕ, ◌≤◌, ◌≡◌, ◌≢◌, ◌⊎◌, refl, sym, ap, ◌∙◌, subst, Bool, true, not, Option, none, some, String,
  count_by, ok, guard, guard-eq-ok, bind-eq-ok, lifted-eq-ok, ok-injective, Option-cases, inl, inr,
  arith, ◌==◌, ◌=s=◌, ==_iff, eq_iff, ℤ, pos, negsuc, pos_part,
}
use helpdesk_microservices.Db.Rows.{Distinct}
use helpdesk_microservices.Http.{bind_json, answered-eq-ok, required-eq-ok}
use helpdesk_microservices.Jwt.{Claims, SigningMethod, Unexpired, Jwt, hmac_only}
use helpdesk_microservices.Auth.Domain.{User, RefreshToken}
use helpdesk_microservices.Auth.Store.{AuthStore, Bcrypt}
use helpdesk_microservices.Auth.Sessions.{
  belongs_to, has_token, find_session, create_session, rotate,
}
use helpdesk_microservices.Auth.Accounts.{with_email, find_by_email, login, mismatch, database}
use helpdesk_microservices.Auth.Tokens.{
  Signature, sign_tokens, access_claims, refresh_claims, TokenPair, LoginRequest, valid_login,
  session_cap,
}
use helpdesk_microservices.Auth.Handler.{
  invalid_input, unauthorized, as_number, as_text, new_session, pair_of, issue_session, post_login,
  rotate_session, post_refresh,
}
use helpdesk_microservices.Auth.Rotation.{Rotated, rotate-Rotated, Rotated-once}
use helpdesk_microservices.Auth.Cap.{token_id, OthersKept, create_session-capped}

-- Both tokens are signed with the secret, for one user and one role.
pub record SignedPair (jwt : Jwt) (secret : String) (now : ℕ) (jti : String) (user : ℕ)
    (role : String) (pair : TokenPair) : Type 0 where
  pub access_signed :
      jwt.Signed SigningMethod.hmac secret (access_claims user role now) pair.access_token
  pub refresh_signed :
      jwt.Signed SigningMethod.hmac secret (refresh_claims user role now jti) pair.refresh_token

pub sign_tokens-SignedPair :
    (jwt : Jwt) (secret : String) (now : ℕ) (jti : String) (user : ℕ) (role : String)
    (s : Signature)
    → sign_tokens jwt secret now jti user role ≡ some s
    → SignedPair jwt secret now jti user role (pair_of s)
unfolding sign_tokens
sign_tokens-SignedPair jwt secret now jti user role s h =
    elim (Option-cases (jwt.sign secret (access_claims user role now))) [
      | inl e ↦ let failed = rw (e, sign_tokens) at h in cc
      | inr (access, e) ↦ elim (Option-cases (jwt.sign secret (refresh_claims user role now jti))) [
        | inl f ↦ let failed = rw (e, f, sign_tokens) at h in cc
        | inr (refresh, f) ↦
            let made = rw (e, f, sign_tokens) at h in
            let first : access ≡ s.access = ground (arith, made) in
            let second : refresh ≡ s.refresh = ground (arith, made) in
            record {
              access_signed = jwt.sign_signed secret _ s.access (e ∙ ap some first);
              refresh_signed = jwt.sign_signed secret _ s.refresh (f ∙ ap some second);
            }
      ]
    ]

session_cap_positive : (n : ℤ) → 1 ≤ pos_part (session_cap n)
unfolding session_cap
session_cap_positive (pos n) = ground arith
session_cap_positive (negsuc n) = ground arith

module _ {Db : Type 0} (store : AuthStore Db) (bcrypt : Bcrypt) (is_email : String → Bool)
    (jwt : Jwt) (secret : String) (max_sessions : ℤ) where
  -- The refresh token `token` was signed with the secret and has not expired; its one session, of the
  -- user that it names, has given way to a session of the same user for the new refresh token.
  pub record Refreshed (now : ℕ) (jti token : String) (pair : TokenPair) (d e : Db) : Type 0 where
    pub claims : Claims
    pub signed :
        (m : SigningMethod) × (key : String) × (hmac_only secret m ≡ some key)
        × jwt.Signed m key claims token
        × Unexpired now claims
    pub user : ℕ
    pub names : as_number claims.user_id ≡ some user
    pub session : RefreshToken
    pub stored : (has_token store token session ≡ true) × Memᴰ session (store.tokens.rows d)
    pub own : session.user_id ≡ user
    pub next : RefreshToken
    pub next_is : (next.user_id ≡ user) × (next.token ≡ pair.refresh_token)
    pub rotated : Rotated store token next d e
    pub pair_signed : SignedPair jwt secret now jti user (as_text claims.role) pair

  rotate_session-Refreshed :
      (d e : Db) (now user : ℕ) (jti token : String) (pair : TokenPair) (session : RefreshToken)
      (claims : Claims)
      → store.tokens.first_where d (has_token store token) ≡ ok session
      → jwt.parse (hmac_only secret) now token ≡ some claims
      → as_number claims.user_id ≡ some user
      → session.user_id ≡ user
      → rotate_session store bcrypt is_email jwt secret max_sessions d now jti token user
          (as_text claims.role)
        ≡ ok (pair, e)
      → Refreshed now jti token pair d e
  unfolding rotate_session
  rotate_session-Refreshed d e now user jti token pair session claims found parsed names own h =
      let (s, made, h1) =
        required-eq-ok (sign_tokens jwt secret now jti user (as_text claims.role)) _ _ h in
      let (d', swapped, last) = answered-eq-ok _ (rotate store d token (new_session user s)) _ h1 in
      let state : d' ≡ e = ap (λ (r : TokenPair × Db). r.1) (ok-injective last) in
      let answer_is : pair_of s ≡ pair = ap (λ (r : TokenPair × Db). r.0) (ok-injective last) in
      record {
        claims = claims;
        signed = jwt.parse_sound (hmac_only secret) now token claims parsed;
        user = user;
        names = names;
        session = session;
        stored = store.tokens.first_where_found d (has_token store token) session found;
        own = own;
        next = new_session user s;
        next_is = (refl, ap (λ (p : TokenPair). p.refresh_token) answer_is);
        rotated = rotate-Rotated store d e token (new_session user s) (swapped ∙ ap ok state);
        pair_signed =
            subst (SignedPair jwt secret now jti user (as_text claims.role)) answer_is
              (sign_tokens-SignedPair jwt secret now jti user (as_text claims.role) s made);
      }

  -- A refresh that succeeds was given a refresh token, which is signed and unexpired and has a
  -- session of the user that it names, and exchanges that one session for a new one of the same
  -- user.
  pub post_refresh-Refreshed :
      (d e : Db) (now : ℕ) (jti : String) (body : Option String) (pair : TokenPair)
      → post_refresh store bcrypt is_email jwt secret max_sessions d now jti body ≡ ok (pair, e)
      → (token : String) × (body ≡ some token) × Refreshed now jti token pair d e
  unfolding post_refresh find_session
  post_refresh-Refreshed d e now jti none pair h = cc
  post_refresh-Refreshed d e now jti (some token) pair h =
      let (token', bound, h1) =
        bind-eq-ok (bind_json (λ t. not (t =s= "")) invalid_input (some token)) _ h in
      let same : token' ≡ token = ground (arith, bound) in
      let (session, found, h2) =
        answered-eq-ok _ (store.tokens.first_where d (has_token store token')) _ h1 in
      let (claims, parsed, h3) = required-eq-ok (jwt.parse (hmac_only secret) now token') _ _ h2 in
      let (user, names, h4) = required-eq-ok (as_number claims.user_id) _ _ h3 in
      let (_, owned, last) =
        bind-eq-ok (guard (session.user_id == user) (unauthorized "invalid refresh token")) _ h4 in
      let own = (==_iff _ _).0 (guard-eq-ok _ (unauthorized "invalid refresh token") owned) in
      (
        token,
        refl,
        subst (λ t. Refreshed now jti t pair d e) same
            (rotate_session-Refreshed d e now user jti token' pair session claims found parsed names
              own last),
      )

  -- A refresh token is good for one refresh: once it has been exchanged for one with another
  -- hash, a second refresh with it, in the state that the first one left, does not succeed.
  pub post_refresh-once :
      (d e e' : Db) (now now' : ℕ) (jti jti' token : String) (pair pair' : TokenPair)
      → store.hash_token pair.refresh_token ≢ store.hash_token token
      → post_refresh store bcrypt is_email jwt secret max_sessions d now jti (some token)
        ≡ ok (pair, e)
      → post_refresh store bcrypt is_email jwt secret max_sessions e now' jti' (some token)
        ≢ ok (pair', e')
  post_refresh-once d e e' now now' jti jti' token pair pair' differs first second =
      let (t, is_t, r) = post_refresh-Refreshed d e now jti (some token) pair first in
      let (t', is_t', r') = post_refresh-Refreshed e e' now' jti' (some token) pair' second in
      let old : t ≡ token = ground (arith, is_t) in
      let old' : t' ≡ token = ground (arith, is_t') in
      Rotated-once store d e e' token r.next r'.next
        (λ same. differs (ap store.hash_token (sym r.next_is.1) ∙ same))
        (subst (λ x. Rotated store x r.next d e) old r.rotated)
        (subst (λ x. Rotated store x r'.next e e') old' r'.rotated)

  -- The account with the request's e-mail, whose password is the request's.
  abbrev pub Account : Db → User → LoginRequest → Type 0
  Account d user req =
      Memᴰ user (store.users.rows d)
      × (user.email ≡ req.email)
      × (bcrypt.compare user.password req.password ≡ true)

  within_cap :
      {n : ℕ}
      → ((pos_part (session_cap max_sessions) ≡ 0) ⊎ (n ≤ pos_part (session_cap max_sessions)))
      → n ≤ pos_part (session_cap max_sessions)
  within_cap (inl zero_cap) = let some_cap = session_cap_positive max_sessions in omega arith
  within_cap (inr few) = few

  -- A login that succeeds is with the e-mail and the password of an account. Its new session's
  -- tokens are for that account and its role, the user has no more sessions than the cap
  -- afterwards, and the other users' sessions are as they were. Session ids are distinct, as a
  -- primary key's are.
  pub post_login-LoggedIn :
      (d e : Db) (now : ℕ) (jti : String) (body : Option LoginRequest) (pair : TokenPair)
      → Distinct token_id (store.tokens.rows d)
      → post_login store bcrypt is_email jwt secret max_sessions d now jti body ≡ ok (pair, e)
      → (req : LoginRequest) × (user : User) × (body ≡ some req)
        × Account d user req
        × SignedPair jwt secret now jti user.id user.role pair
        × (count_by (belongs_to user.id) (store.tokens.rows e)
            ≤ pos_part (session_cap max_sessions))
        × OthersKept store user.id d e
  unfolding post_login issue_session login find_by_email
  post_login-LoggedIn d e now jti none pair distinct h = cc
  post_login-LoggedIn d e now jti (some req) pair distinct h =
      let (req', bound, h1) =
        bind-eq-ok (bind_json (valid_login is_email) invalid_input (some req)) _ h in
      let same : req' ≡ req = ground (arith, bound) in
      let (user, logged_in, h2) =
        answered-eq-ok _ (login store bcrypt d req'.email req'.password) _ h1 in
      let (found_user, found, l1) =
        lifted-eq-ok database (store.users.first_where d (with_email req'.email)) _ logged_in in
      let (_, compared, l2) =
        bind-eq-ok (guard (bcrypt.compare found_user.password req'.password) mismatch) _ l1 in
      let is_user : found_user ≡ user = ok-injective l2 in
      let (s, made, h3) =
        required-eq-ok (sign_tokens jwt secret now jti user.id user.role) _ _ h2 in
      let (d', created, last) =
        answered-eq-ok _
          (create_session store d now (new_session user.id s) (session_cap max_sessions)) _ h3 in
      let state : d' ≡ e = ap (λ (r : TokenPair × Db). r.1) (ok-injective last) in
      let answer_is : pair_of s ≡ pair = ap (λ (r : TokenPair × Db). r.0) (ok-injective last) in
      let (emailed, row) =
        store.users.first_where_found d (with_email req'.email) found_user found in
      let (capped, others) =
        create_session-capped store d e now (new_session user.id s) (session_cap max_sessions)
          distinct (created ∙ ap ok state) in
      let account : Account d user req' =
        subst (λ u. Account d u req') is_user
          (row, (eq_iff _ _).0 emailed, guard-eq-ok _ mismatch compared) in
      (
        req',
        user,
        ap some (sym same),
        account,
        subst (SignedPair jwt secret now jti user.id user.role) answer_is
            (sign_tokens-SignedPair jwt secret now jti user.id user.role s made),
        within_cap capped,
        others,
      )
