-- ===== src/Auth/Passwords.antt =====
-- Passwords and privileges: what a registration and a change of password leave.
use helpdesk_microservices.Base.{
  ℕ, ◌≡◌, ◌⊎◌, refl, sym, ap, ◌∙◌, subst, inl, inr, Bool, true, not, ◌||◌, Option, none, some,
  String, [], ◌∷◌, ◌++◌, count_by, find_by, Result, ok, err, ◌>>=◌, guard, guard-eq-ok, bind-eq-ok,
  lift-eq-ok, lifted-eq-ok, ok-injective, Result-cases, arith, eq_iff, ◌=s=◌,
}
use helpdesk_microservices.Db.{DbError, has_key, update_where}
use helpdesk_microservices.Http.{Headers, bind_json-eq-ok, answered-eq-ok}
use helpdesk_microservices.Auth.Domain.{User}
use helpdesk_microservices.Auth.Store.{AuthStore, Bcrypt}
use helpdesk_microservices.Auth.Sessions.{belongs_to, delete_by_user}
use helpdesk_microservices.Auth.Accounts.{
  database, wrong_password, hash_failed, email_taken, or_error, is_taken, new_user, create_user,
  find_user, update_user, register, change_password,
}
use helpdesk_microservices.Auth.Tokens.{
  RegisterRequest, CreateStaffRequest, ChangePasswordRequest, valid_register, valid_staff,
  valid_change,
}
use helpdesk_microservices.Auth.Handler.{
  invalid_input, caller, post_register, post_staff, post_change_password,
}
use helpdesk_microservices.Auth.Rotation.{delete_by_user_lem}

pub or_error-eq-ok :
    {E A B : Type 0} (o : Option A) (e : E) (k : A → Result E B) {b : B}
    → (or_error o e >>= k) ≡ ok b
    → (a : A) × (o ≡ some a) × (k a ≡ ok b)
or_error-eq-ok (some a) e k h = (a, refl, h)
or_error-eq-ok none e k h = cc

module _ {Db : Type 0} (store : AuthStore Db) (bcrypt : Bcrypt) where
  -- One account is added, with this e-mail, role and password, which is stored as a hash that matches it.
  pub record Registered (email password role : String) (d e : Db) : Type 0 where
    pub account : User
    pub added : store.users.rows e ≡ store.users.rows d ++ account ∷ []
    pub email_is : account.email ≡ email
    pub role_is : account.role ≡ role
    pub matches : bcrypt.compare account.password password ≡ true

  register-Registered :
      (d e : Db) (salt : ℕ) (name email password department role : String)
      → register store bcrypt d salt name email password department role ≡ ok e
      → Registered email password role d e
  unfolding register create_user
  register-Registered d e salt name email password department role h =
      let (_, _, h1) = bind-eq-ok (guard (not (is_taken store d email)) email_taken) _ h in
      let (hashed, made, h2) = or_error-eq-ok (bcrypt.hash salt password) hash_failed _ h1 in
      let saved = lift-eq-ok database _ h2 in
      let (row, created, last) =
        bind-eq-ok (store.users.create d (new_user name email hashed department role)) _ saved in
      let ins = store.users.create_inserted d row.1 _ row.0 created in
      let filled = ins.filled in
      record {
        account = row.0;
        added = ap store.users.rows (sym (ok-injective last)) ∙ ins.appended;
        email_is = ap (λ (u : User). u.email) filled;
        role_is = ap (λ (u : User). u.role) filled;
        matches =
            ap (λ (u : User). bcrypt.compare u.password password) filled
            ∙ bcrypt.hash_compare salt password hashed made;
      }

  -- The row of the user `id` has a password that matches the new one, where it matched the old one, and
  -- no other row is changed.
  pub record Rewritten (id : ℕ) (old_password new_password : String) (d e : Db) : Type 0 where
    pub account : User
    pub was : find_by (has_key (λ u. u.id) id) (store.users.rows d) ≡ some account
    pub verified : bcrypt.compare account.password old_password ≡ true
    pub hashed : String
    pub matches : bcrypt.compare hashed new_password ≡ true
    pub users_are :
        store.users.rows e
        ≡ update_where
            (has_key (λ u. u.id) account.id)
            (λ _. record account { password = hashed })
            (store.users.rows d)

  change_password-Rewritten :
      (d e : Db) (salt id : ℕ) (old_password new_password : String)
      → change_password store bcrypt d salt id old_password new_password ≡ ok e
      → Rewritten id old_password new_password d e
  unfolding change_password find_user update_user
  change_password-Rewritten d e salt id old_password new_password changed =
      let (account, found, c1) = lifted-eq-ok database (store.users.first d id) _ changed in
      let (_, old, c2) =
        bind-eq-ok (guard (bcrypt.compare account.password old_password) wrong_password) _ c1 in
      let (hashed, made_hash, c3) =
        or_error-eq-ok (bcrypt.hash salt new_password) hash_failed _ c2 in
      record {
        account = account;
        was = store.users.first_found d id account found;
        verified = guard-eq-ok _ wrong_password old;
        hashed = hashed;
        matches = bcrypt.hash_compare salt new_password hashed made_hash;
        users_are = store.users.updates_rows d e _ _ (lift-eq-ok database _ c3);
      }

  -- Besides, the user's sessions are gone, unless they could not be deleted.
  pub record PasswordChanged (id : ℕ) (old_password new_password : String) (d e : Db) : Type 0 where
    pub rewritten : Rewritten id old_password new_password d e
    pub revoked :
        (count_by (belongs_to id) (store.tokens.rows e) ≡ 0)
        ⊎ ((failure : DbError) × (delete_by_user store e id ≡ err failure))

  abbrev after_revoking : Db → ℕ → Db
  after_revoking d id = elim (delete_by_user store d id) [ ok d' ↦ d' | err _ ↦ d ]

  delete_by_user-users :
      (d e : Db) (user : ℕ)
      → delete_by_user store d user ≡ ok e
      → store.users.rows e ≡ store.users.rows d
  unfolding delete_by_user
  delete_by_user-users d e user h =
      let (gone, deleted, last) = bind-eq-ok (store.tokens.delete d (belongs_to user)) _ h in
      ap store.users.rows (sym (ok-injective last))
      ∙ store.tokens_delete_keeps d gone.1 _ gone.0 deleted

  after_revoking-PasswordChanged :
      (d d' e : Db) (id : ℕ) (old_password new_password : String)
      → Rewritten id old_password new_password d d'
      → after_revoking d' id ≡ e
      → PasswordChanged id old_password new_password d e
  after_revoking-PasswordChanged d d' e id old_password new_password r h =
      elim (Result-cases (delete_by_user store d' id)) [
        | inl (d'', done) ↦
            let same : d'' ≡ e = rw (done, after_revoking) at h in
            let gone = delete_by_user_lem store d' d'' id done in
            let users = delete_by_user-users d' d'' id done in
            subst (PasswordChanged id old_password new_password d) same (record {
              rewritten = record {
                account = r.account;
                was = r.was;
                verified = r.verified;
                hashed = r.hashed;
                matches = r.matches;
                users_are = users ∙ r.users_are;
              };
              revoked = inl gone.0;
            })
        | inr (failure, failed) ↦
            let same : d' ≡ e = rw (failed, after_revoking) at h in
            subst (PasswordChanged id old_password new_password d) same
              (record { rewritten = r; revoked = inr (failure, failed) })
      ]

  module _ (is_email : String → Bool) where
    -- A public registration that succeeds adds one account, whose role is "user" whatever the
    -- request, and whose password is stored as a hash that matches it.
    pub post_register-Registered :
        (d e : Db) (salt : ℕ) (body : Option RegisterRequest) (said : String)
        → post_register store bcrypt is_email d salt body ≡ ok (said, e)
        → (req : RegisterRequest) × (body ≡ some req) × Registered req.email req.password "user" d e
    unfolding post_register
    post_register-Registered d e salt body said h =
        let (req, bound, h1) = bind_json-eq-ok (valid_register is_email) invalid_input body _ h in
        let (d', done, last) =
          answered-eq-ok _ (register store bcrypt d salt _ _ _ _ "user") _ h1 in
        let state : d' ≡ e = ap (λ (r : String × Db). r.1) (ok-injective last) in
        (req, bound, register-Registered d e salt _ _ _ _ "user" (done ∙ ap ok state))

    -- Staff that is created is one account more, an agent or an admin, whose password is stored
    -- as a hash that matches it.
    pub post_staff-Registered :
        (d e : Db) (salt : ℕ) (body : Option CreateStaffRequest) (said : String)
        → post_staff store bcrypt is_email d salt body ≡ ok (said, e)
        → (req : CreateStaffRequest) × (body ≡ some req)
          × Registered req.email req.password req.role d e
          × ((req.role ≡ "agent") ⊎ (req.role ≡ "admin"))
    unfolding post_staff
    post_staff-Registered d e salt body said h =
        let (req, bound, h1) = bind_json-eq-ok (valid_staff is_email) invalid_input body _ h in
        let (_, staff, h2) =
          bind-eq-ok (guard (req.role =s= "agent" || req.role =s= "admin") _) _ h1 in
        let (d', done, last) =
          answered-eq-ok _ (register store bcrypt d salt _ _ _ _ req.role) _ h2 in
        let state : d' ≡ e = ap (λ (r : String × Db). r.1) (ok-injective last) in
        let test = guard-eq-ok _ _ staff in
        (
          req,
          bound,
          register-Registered d e salt _ _ _ _ req.role (done ∙ ap ok state),
          ground (arith, test, eq_iff req.role "agent", eq_iff req.role "admin"),
        )

    -- A public registration that succeeds, and then a creation of staff that succeeds, add one
    -- account each, with the e-mail of the body: the first with the role "user" whatever the
    -- request, the second an agent or an admin, as its body says. The password of each is
    -- stored as a hash that matches the password of the body.
    pub sign_ups-Registered :
        (d e f : Db) (salt salt' : ℕ) (body : Option RegisterRequest)
        (staff : Option CreateStaffRequest) (said said' : String)
        → post_register store bcrypt is_email d salt body ≡ ok (said, e)
        → post_staff store bcrypt is_email e salt' staff ≡ ok (said', f)
        → (req : RegisterRequest) × (body ≡ some req)
          × Registered req.email req.password "user" d e
          × (req' : CreateStaffRequest) × (staff ≡ some req')
          × Registered req'.email req'.password req'.role e f
          × ((req'.role ≡ "agent") ⊎ (req'.role ≡ "admin"))
    sign_ups-Registered d e f salt salt' body staff said said' h g =
        let (req, bound, registered) = post_register-Registered d e salt body said h in
        let (req', bound', hired, role) = post_staff-Registered e f salt' staff said' g in
        (req, bound, registered, req', bound', hired, role)

    -- A change of password that succeeds is by a caller who gave, in the body, the old password
    -- of the account. The caller's own row is the only one changed, its password matches the
    -- new one of the body, and the caller's sessions are gone unless the database fails to
    -- delete them.
    pub post_change_password-PasswordChanged :
        (d e : Db) (salt : ℕ) (h : Headers) (body : Option ChangePasswordRequest) (said : String)
        → post_change_password store bcrypt is_email d salt h body ≡ ok (said, e)
        → (user : ℕ) × (req : ChangePasswordRequest) × (caller h ≡ ok user)
          × (body ≡ some req)
          × PasswordChanged user req.old_password req.new_password d e
    unfolding post_change_password
    post_change_password-PasswordChanged d e salt h body said made =
        let (user, called, h1) = bind-eq-ok (caller h) _ made in
        let (req, bound, h2) = bind_json-eq-ok valid_change invalid_input body _ h1 in
        let (d', changed, last) =
          answered-eq-ok _
            (change_password store bcrypt d salt user req.old_password req.new_password) _ h2 in
        (
          user,
          req,
          called,
          bound,
          after_revoking-PasswordChanged d d' e user req.old_password req.new_password
              (change_password-Rewritten d d' salt user req.old_password req.new_password changed)
              (ap (λ (r : String × Db). r.1) (ok-injective last)),
        )
