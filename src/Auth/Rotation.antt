-- ===== src/Auth/Rotation.antt =====
-- A refresh token is good for one rotation; revoking one session leaves the others.
use helpdesk_microservices.Base.{
  ℕ, ◌≡◌, ◌≢◌, refl, sym, ap, ◌∙◌, false, not, ◌&&◌, String, [], ◌∷◌, ◌++◌, keep, count_by, ok,
  guard, bind-eq-ok, guard-eq-ok, lifted-eq-ok, ok-injective, arith, ◌==◌, ==_iff, =s=_false,
}
use helpdesk_microservices.Db.Counts.{count_keep-not, count_by-append_miss, keep-keep}
use helpdesk_microservices.Auth.Domain.{RefreshToken}
use helpdesk_microservices.Auth.Store.{token_not_found, database, AuthStore}
use helpdesk_microservices.Auth.Sessions.{
  belongs_to, has_token, rotate, delete_session, delete_by_user,
}

module _ {Db : Type 0} (store : AuthStore Db) where
  -- One session's row gives way to one for `next`; the rest are as they were.
  pub record Rotated (old_token : String) (next : RefreshToken) (d e : Db) : Type 0 where
    pub was_one : count_by (has_token store old_token) (store.tokens.rows d) ≡ 1
    pub session : RefreshToken
    pub session_user : session.user_id ≡ next.user_id
    pub session_token : session.token ≡ store.hash_token next.token
    pub rows_are :
        store.tokens.rows e
        ≡ keep (λ t. not (has_token store old_token t)) (store.tokens.rows d) ++ session ∷ []

  pub rotate-Rotated :
      (d e : Db) (old_token : String) (next : RefreshToken)
      → rotate store d old_token next ≡ ok e
      → Rotated old_token next d e
  unfolding rotate
  rotate-Rotated d e old_token next h =
      let (gone, deleted, h1) =
        lifted-eq-ok database (store.tokens.delete d (has_token store old_token)) _
          (store.transaction_body d e _ h) in
      let (_, one, h2) = bind-eq-ok (guard (gone.0 == 1) token_not_found) _ h1 in
      let (made, created, last) = lifted-eq-ok database (store.tokens.create gone.1 _) _ h2 in
      let (left, affected) = store.tokens.delete_rows d gone.1 _ gone.0 deleted in
      let ins = store.tokens.create_inserted gone.1 made.1 _ made.0 created in
      let same : made.1 ≡ e = ok-injective last in
      let filled = ins.filled in
      record {
        was_one = sym affected ∙ (==_iff gone.0 1).0 (guard-eq-ok _ token_not_found one);
        session = made.0;
        session_user = rw filled refl;
        session_token = rw filled refl;
        rows_are =
            ap store.tokens.rows (sym same) ∙ ins.appended ∙ ap (λ rs. rs ++ made.0 ∷ []) left;
      }

  gone_after :
      (old_token : String) (next : RefreshToken) (d e : Db)
      → Rotated old_token next d e
      → store.hash_token next.token ≢ store.hash_token old_token
      → count_by (has_token store old_token) (store.tokens.rows e) ≡ 0
  gone_after old_token next d e r differs =
      let fresh : has_token store old_token r.session ≡ false =
        =s=_false _ _ λ same. differs (sym r.session_token ∙ same) in
      ap (count_by (has_token store old_token)) r.rows_are
      ∙ count_by-append_miss (has_token store old_token) _ r.session fresh
      ∙ (count_keep-not (has_token store old_token) (store.tokens.rows d))

  pub Rotated-once :
      (d e e' : Db) (old_token : String) (next next' : RefreshToken)
      → store.hash_token next.token ≢ store.hash_token old_token
      → Rotated old_token next d e
      → Rotated old_token next' e e'
      → ⊥
  Rotated-once d e e' old_token next next' differs first second =
      let none_left = gone_after old_token next d e first differs in
      let one = second.was_one in omega arith

  -- Of two rotations of one refresh token, one after the other, the second fails, whatever happened to
  -- the other sessions: the new token's hash being another one, no row has the old one.
  pub rotate-once :
      (d e e' : Db) (old_token : String) (next next' : RefreshToken)
      → store.hash_token next.token ≢ store.hash_token old_token
      → rotate store d old_token next ≡ ok e
      → rotate store e old_token next' ≢ ok e'
  rotate-once d e e' old_token next next' differs first second =
      Rotated-once d e e' old_token next next' differs (rotate-Rotated d e old_token next first)
        (rotate-Rotated e e' old_token next' second)

  -- Revoking a session by its token, where the database does it, leaves every session of the
  -- other users and every session with another token, and none of the user's with that token.
  pub delete_session_lem :
      (d e : Db) (user : ℕ) (token : String)
      → delete_session store d user token ≡ ok e
      → (count_by (λ t. belongs_to user t && has_token store token t) (store.tokens.rows e) ≡ 0)
        × (keep (λ t. not (belongs_to user t)) (store.tokens.rows e)
            ≡ keep (λ t. not (belongs_to user t)) (store.tokens.rows d))
        × (keep (λ t. not (has_token store token t)) (store.tokens.rows e)
            ≡ keep (λ t. not (has_token store token t)) (store.tokens.rows d))
  unfolding delete_session
  delete_session_lem d e user token h =
      let (gone, deleted, last) = bind-eq-ok (store.tokens.delete d _) _ h in
      let (left, _) = store.tokens.delete_rows d gone.1 _ gone.0 deleted in
      let rows = ap store.tokens.rows (sym (ok-injective last)) ∙ left in
      (
        ap (count_by _) rows ∙ count_keep-not _ (store.tokens.rows d),
        ap (keep _) rows ∙ keep-keep _ _ (λ r o. ground arith) (store.tokens.rows d),
        ap (keep _) rows ∙ keep-keep _ _ (λ r o. ground arith) (store.tokens.rows d),
      )

  -- Revoking a user's sessions leaves none of them, and all of the others.
  pub delete_by_user_lem :
      (d e : Db) (user : ℕ)
      → delete_by_user store d user ≡ ok e
      → (count_by (belongs_to user) (store.tokens.rows e) ≡ 0)
        × (keep (λ t. not (belongs_to user t)) (store.tokens.rows e)
            ≡ keep (λ t. not (belongs_to user t)) (store.tokens.rows d))
  unfolding delete_by_user
  delete_by_user_lem d e user h =
      let (gone, deleted, last) = bind-eq-ok (store.tokens.delete d _) _ h in
      let (left, _) = store.tokens.delete_rows d gone.1 _ gone.0 deleted in
      let rows = ap store.tokens.rows (sym (ok-injective last)) ∙ left in
      (
        ap (count_by _) rows ∙ count_keep-not _ (store.tokens.rows d),
        ap (keep _) rows ∙ keep-keep _ _ (λ r o. o) (store.tokens.rows d),
      )
