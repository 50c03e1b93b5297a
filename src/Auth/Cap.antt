-- ===== src/Auth/Cap.antt =====
-- The cap on a user's sessions.
use helpdesk_microservices.Base.{
  ℕ, suc, ◌≤◌, ◌⊎◌, inl, inr, Bool-cases, ◌≡◌, refl, sym, ap, ◌∙◌, subst, Bool, true, not, ◌&&◌,
  List, [], ◌∷◌, map, length, keep, count_by, ok, lifted-eq-ok, ok-injective, arith, ==_iff, ◌==◌,
  if◌then◌else◌, ℤ, pos_part,
}
use helpdesk_microservices.Db.Rows.{Distinct, Distinct-append}
use helpdesk_microservices.Db.Selection.{Selected-length}
use helpdesk_microservices.Db.Counts.{
  contains, count-contains_le, keep-Distinct, count_by-keep, count_by_mono, keep-keep,
  keep-append_miss,
}
use helpdesk_microservices.Auth.Domain.{RefreshToken}
use helpdesk_microservices.Auth.Store.{database, AuthStore}
use helpdesk_microservices.Auth.Sessions.{belongs_to, newest_sessions, evict_oldest, create_session}

abbrev pub token_id : RefreshToken → ℕ
token_id t = t.id

module _ {Db : Type 0} (store : AuthStore Db) where
  -- What an operation for one user keeps: every other user's sessions, in their order.
  abbrev pub OthersKept : ℕ → Db → Db → Type 0
  OthersKept user d e =
      keep (λ t. not (belongs_to user t)) (store.tokens.rows e)
      ≡ keep (λ t. not (belongs_to user t)) (store.tokens.rows d)

  length-map_id : (ts : List RefreshToken) → length (map token_id ts) ≡ length ts
  length-map_id [] = refl
  length-map_id (t ∷ ts) = ap suc (length-map_id ts)

  evict_oldest_lem :
      (d e : Db) (user max_sessions : ℕ)
      → Distinct token_id (store.tokens.rows d)
      → evict_oldest store d user max_sessions ≡ ok e
      → (count_by (belongs_to user) (store.tokens.rows e) ≤ max_sessions) × OthersKept user d e
  unfolding evict_oldest
  evict_oldest_lem d e user max_sessions distinct h =
      let (kept, found, h1) = lifted-eq-ok database (store.tokens.find d _) _ h in
      let (gone, deleted, last) = lifted-eq-ok database (store.tokens.delete d _) _ h1 in
      let few =
        Selected-length
          (store.tokens.find_selected d (newest_sessions user max_sessions) kept found) max_sessions
          refl in
      let (left, _) = store.tokens.delete_rows d gone.1 _ gone.0 deleted in
      let rows = ap store.tokens.rows (sym (ok-injective last)) ∙ left in
      let ids = map token_id kept in
      let rest : RefreshToken → Bool = λ t. not (belongs_to user t && not (contains ids t.id)) in
      let counted =
        ap (count_by (belongs_to user)) rows
        ∙ count_by-keep (belongs_to user) rest (store.tokens.rows d) in
      let listed =
        count_by_mono (λ t. rest t && belongs_to user t) (λ t. contains ids t.id)
          (λ r m. ground arith) (store.tokens.rows d) in
      let bounded = count-contains_le token_id ids (store.tokens.rows d) distinct in
      (
        omega (arith, counted, listed, bounded, length-map_id kept, few),
        ap (keep (λ t. not (belongs_to user t))) rows
            ∙ keep-keep rest _ (λ r o. ground arith) (store.tokens.rows d),
      )

  evict_if_capped :
      (d e : Db) (user cap : ℕ)
      → Distinct token_id (store.tokens.rows d)
      → (if cap == 0 then ok d else evict_oldest store d user cap) ≡ ok e
      → ((cap ≡ 0) ⊎ (count_by (belongs_to user) (store.tokens.rows e) ≤ cap)) × OthersKept user d e
  evict_if_capped d e user cap distinct h = elim (Bool-cases (cap == 0)) [
    | inl none_set ↦
        let same : d ≡ e = ok-injective (rw none_set at h) in
        (
          inl ((==_iff _ _).0 none_set),
          ap (λ x. keep (λ t. not (belongs_to user t)) (store.tokens.rows x)) (sym same),
        )
    | inr set ↦
        let (few, kept) = evict_oldest_lem d e user cap distinct (rw set at h) in (inr few, kept)
  ]

  added-Distinct :
      (d e : Db) (row stored : RefreshToken)
      → store.tokens.create d row ≡ ok (stored, e)
      → Distinct token_id (store.tokens.rows d)
      → Distinct token_id (store.tokens.rows e)
  added-Distinct d e row stored made distinct =
      let ins = store.tokens.create_inserted d e row stored made in
      subst (Distinct token_id) (sym ins.appended)
        (Distinct-append token_id (store.tokens.rows d) stored distinct ins.fresh)

  added-OthersKept :
      (d e : Db) (row stored : RefreshToken)
      → store.tokens.create d row ≡ ok (stored, e)
      → OthersKept row.user_id d e
  added-OthersKept d e row stored made =
      let ins = store.tokens.create_inserted d e row stored made in
      let own : stored.user_id ≡ row.user_id = ap (λ (t : RefreshToken). t.user_id) ins.filled in
      let hit : belongs_to row.user_id stored ≡ true = (==_iff _ _).1 own in
      ap (keep _) ins.appended ∙ keep-append_miss _ (store.tokens.rows d) stored (ap not hit)

  -- A login's new session: with a positive cap the user has at most so many sessions afterwards, and
  -- with any cap the other users' sessions are as they were. The ids of the sessions are distinct, as a
  -- primary key's are.
  pub create_session-capped :
      (d e : Db) (now : ℕ) (token : RefreshToken) (max_sessions : ℤ)
      → Distinct token_id (store.tokens.rows d)
      → create_session store d now token max_sessions ≡ ok e
      → ((pos_part max_sessions ≡ 0)
          ⊎ (count_by (belongs_to token.user_id) (store.tokens.rows e) ≤ pos_part max_sessions))
        × OthersKept token.user_id d e
  unfolding create_session
  create_session-capped d e now token max_sessions distinct h =
      let (locked, took, h1) =
        lifted-eq-ok database (store.advisory_lock d _) _ (store.transaction_body d e _ h) in
      let (made, created, h2) = lifted-eq-ok database (store.tokens.create locked _) _ h1 in
      let (gone, deleted, last) = lifted-eq-ok database (store.tokens.delete made.1 _) _ h2 in
      let start = store.lock_keeps d locked _ took in
      let distinct1 = added-Distinct locked made.1 _ made.0 created (rw start distinct) in
      let others1 = added-OthersKept locked made.1 _ made.0 created in
      let (left, _) = store.tokens.delete_rows made.1 gone.1 _ gone.0 deleted in
      let distinct2 : Distinct token_id (store.tokens.rows gone.1) =
        subst (Distinct token_id) (sym left) (keep-Distinct token_id _ _ distinct1) in
      let others2 =
        ap (keep _) left
        ∙ keep-keep _ (λ t. not (belongs_to token.user_id t)) (λ r o. ground arith)
            (store.tokens.rows made.1) in
      let others = others2 ∙ others1 ∙ ap (keep _) start in
      let (capped, kept) =
        evict_if_capped gone.1 e token.user_id (pos_part max_sessions) distinct2 last in
      (capped, kept ∙ others)
