-- ===== src/Migrations/Adoption.antt =====
-- What `Run` leaves: the schema at the latest version, and no migration run twice.
use mathlib.Core.List.{append-nil}
use helpdesk_microservices.Base.{
  ℕ, ◌<◌, ◌≤◌, ◌≡◌, refl, sym, ap, ◌∙◌, subst, inl, inr, Bool, true, false, Bool-cases,
  Option-cases, Result-cases, Option, none, some, String, List, [], ◌∷◌, ◌++◌, All, Result, ok, err,
  arith,
}
use helpdesk_microservices.Migrations.Defs.{
  Version, UpError, RunError, version_number, Migrator, up_answer, migrate_up, adopt, run,
}

-- The version that a database counts as having: 1, where it has none and the table is there.
abbrev pub start_of : Option Version → (exists : Bool) → ℕ
start_of none true = 1
start_of none false = 0
start_of (some v) exists = v.number

abbrev pub dirty_of : Option Version → Bool
dirty_of none = false
dirty_of (some v) = v.dirty

module _ {Db : Type 0} (m : Migrator Db) where
  abbrev pub starting_point : Db → (table : String) → ℕ
  starting_point d table = start_of (m.version d) (m.exists d table)

  -- The migrations that have been started between the two.
  pub record Runs (start : ℕ) (d e : Db) : Type 0 where
    pub new : List ℕ
    pub added : m.ran e ≡ m.ran d ++ new
    pub each : All (λ n. (start < n) × (n ≤ m.latest)) new

  nothing-Runs : (start : ℕ) (d : Db) → Runs start d d
  nothing-Runs start d = record { new = []; added = sym (append-nil (m.ran d)); each = tt }

  -- The database is at the latest version, and not dirty.
  abbrev pub IsCurrent : Db → Type 0
  IsCurrent d = m.version d ≡ some (record { number = m.latest; dirty = false })

  migrate_up-Runs : (d : Db) → Runs (version_number (m.version d)) d (migrate_up m d).1
  unfolding migrate_up
  migrate_up-Runs d =
      let (new, added, each) = m.up_runs d in record { new = new; added = added; each = each }

  -- After `Force(1)`, which runs nothing, the migrations start at 2.
  forced-Runs : (d : Db) → (m.force d 1).0 ≡ ok tt → Runs 1 d (migrate_up m (m.force d 1).1).1
  forced-Runs d done =
      let e = (m.force d 1).1 in
      let at = m.force_version d e 1 (ap (λ r. (r, e)) done) in
      let r = migrate_up-Runs e in
      record {
        new = r.new;
        added = r.added ∙ ap (λ l. l ++ r.new) (m.force_ran d 1);
        each = subst (λ v. All (λ n. (version_number v < n) × (n ≤ m.latest)) r.new) at r.each;
      }

  failed_force-Runs : (d : Db) → Runs 1 d (m.force d 1).1
  failed_force-Runs d = record {
    new = [];
    added = m.force_ran d 1 ∙ sym (append-nil (m.ran d));
    each = tt;
  }

  adopt-Runs :
      (d : Db) (table : String)
      → m.version d ≡ none
      → Runs (starting_point d table) d (adopt m d table).1
  unfolding adopt
  adopt-Runs d table fresh = elim (Result-cases (m.table_exists d table)) [
    | inr (why, e) ↦ rw (e, adopt) (nothing-Runs _ d)
    | inl (there, e) ↦ elim (Bool-cases there) [
      | inl here ↦
          let known : m.exists d table ≡ true =
            sym (m.table_exists_exists d table there e) ∙ here in
          elim (Result-cases (m.force d 1).0) [
            | inl (u, done) ↦ rw (fresh, known, e, here, done, adopt) (forced-Runs d done)
            | inr (why, broke) ↦ rw (fresh, known, e, here, broke, adopt) (failed_force-Runs d)
          ]
      | inr missing ↦
          let unknown : m.exists d table ≡ false =
            sym (m.table_exists_exists d table there e) ∙ missing in
          rw (fresh, unknown, e, missing, adopt)
            (subst (λ v. Runs (version_number v) d (migrate_up m d).1) fresh (migrate_up-Runs d))
    ]
  ]

  run-Runs : (d : Db) (table : String) → Runs (starting_point d table) d (run m d table).1
  unfolding run
  run-Runs d table = elim (Result-cases (m.open_instance d)) [
    | inr (why, e) ↦ rw (e, run) (nothing-Runs _ d)
    | inl (u, e) ↦ elim (Result-cases (m.get_version d)) [
      | inr (why, unread) ↦ rw (e, unread, run) (nothing-Runs _ d)
      | inl (v, read) ↦
          let at = m.get_version_version d v read in
          elim (Option-cases v) [
            | inl nil ↦ rw (e, read, nil, run) (adopt-Runs d table (sym at ∙ nil))
            | inr (w, some_w) ↦ elim (Bool-cases w.dirty) [
              | inl dirty ↦ rw (e, read, some_w, dirty, run) (nothing-Runs _ d)
              | inr clean ↦
                  let versioned : m.version d ≡ some w = sym at ∙ some_w in
                  rw (e, read, some_w, clean, versioned, run)
                    (subst (λ v. Runs (version_number v) d (migrate_up m d).1) versioned
                      (migrate_up-Runs d))
            ]
          ]
    ]
  ]

  no_change-IsCurrent :
      (d : Db) (why : UpError)
      → (m.up d).0 ≡ err why
      → up_answer (err why) ≡ ok tt
      → IsCurrent (m.up d).1
  unfolding up_answer
  no_change-IsCurrent d UpError.no_change e h =
      let (same, at) = m.up_no_change d (m.up d).1 (ap (λ r. (r, (m.up d).1)) e) in
      ap m.version same ∙ at
  no_change-IsCurrent d (UpError.failed why) e h = cc

  migrate_up-IsCurrent : (d : Db) → (migrate_up m d).0 ≡ ok tt → IsCurrent (migrate_up m d).1
  unfolding migrate_up
  migrate_up-IsCurrent d h = elim (Result-cases (m.up d).0) [
    | inl (u, e) ↦ m.up_ok d (m.up d).1 (ap (λ r. (r, (m.up d).1)) e)
    | inr (why, e) ↦ no_change-IsCurrent d why e (rw e at h)
  ]

  adopt-IsCurrent :
      (d : Db) (table : String) → (adopt m d table).0 ≡ ok tt → IsCurrent (adopt m d table).1
  unfolding adopt
  adopt-IsCurrent d table h = elim (Result-cases (m.table_exists d table)) [
    | inr (why, e) ↦ absurd (let no_way = rw (e, adopt) at h in cc)
    | inl (there, e) ↦ elim (Bool-cases there) [
      | inl here ↦ elim (Result-cases (m.force d 1).0) [
        | inl (u, done) ↦
            rw (e, here, done, adopt) (migrate_up-IsCurrent _ (rw (e, here, done, adopt) at h))
        | inr (why, broke) ↦ absurd (let no_way = rw (e, here, broke, adopt) at h in cc)
      ]
      | inr missing ↦ rw (e, missing, adopt) (migrate_up-IsCurrent d (rw (e, missing, adopt) at h))
    ]
  ]

  -- A run that succeeds was of a database that is not dirty, and has brought it to the latest version.
  run-IsCurrent :
      (d : Db) (table : String)
      → (run m d table).0 ≡ ok tt
      → IsCurrent (run m d table).1 × (dirty_of (m.version d) ≡ false)
  unfolding run
  run-IsCurrent d table h = elim (Result-cases (m.open_instance d)) [
    | inr (why, e) ↦ absurd (let no_way = rw (e, run) at h in cc)
    | inl (u, e) ↦ elim (Result-cases (m.get_version d)) [
      | inr (why, unread) ↦ absurd (let no_way = rw (e, unread, run) at h in cc)
      | inl (v, read) ↦
          let at = m.get_version_version d v read in
          elim (Option-cases v) [
            | inl nil ↦ (
              rw (e, read, nil, run) (adopt-IsCurrent d table (rw (e, read, nil, run) at h)),
              ap dirty_of (sym at ∙ nil),
            )
            | inr (w, some_w) ↦ elim (Bool-cases w.dirty) [
              | inl dirty ↦ absurd (let no_way = rw (e, read, some_w, dirty, run) at h in cc)
              | inr clean ↦ (
                rw (e, read, some_w, clean, run)
                    (migrate_up-IsCurrent d (rw (e, read, some_w, clean, run) at h)),
                ap dirty_of (sym at ∙ some_w) ∙ clean,
              )
            ]
          ]
    ]
  ]

  none_between : (k : ℕ) (l : List ℕ) → All (λ n. (k < n) × (n ≤ k)) l → l ≡ []
  none_between k [] h = refl
  none_between k (n ∷ l) h = absurd (omega (arith, h.0.0, h.0.1))

  pub record Migrated (d : Db) (table : String) (e later : Db) : Type 0 where
    pub current : IsCurrent e
    pub clean : dirty_of (m.version d) ≡ false
    pub runs : Runs (starting_point d table) d e
    pub settled : m.ran later ≡ m.ran e

  -- A migration at the start of a service that succeeds was of a database that is not dirty,
  -- and leaves it at the latest version. It has run migrations after the version that the
  -- database had, or after the first, for one that has no version and has its table already. A
  -- second one starts no migration, whatever comes of it.
  pub run-Migrated :
      (d e later : Db) (table : String) (again : Result RunError (Unit {0}))
      → run m d table ≡ (ok tt, e)
      → run m e table ≡ (again, later)
      → Migrated d table e later
  run-Migrated d e later table again first second =
      let (current, clean) = run-IsCurrent d table (ap (λ r. r.0) first) in
      let state : (run m d table).1 ≡ e = ap (λ r. r.1) first in
      let at : IsCurrent e = subst IsCurrent state current in
      let rerun =
        subst (Runs (starting_point e table) e) (ap (λ r. r.1) second) (run-Runs e table) in
      let nothing = none_between m.latest rerun.new (
        subst (λ v. All (λ n. (start_of v (m.exists e table) < n) × (n ≤ m.latest)) rerun.new) at
          rerun.each) in
      record {
        current = at;
        clean = clean;
        runs = subst (Runs (starting_point d table) d) state (run-Runs d table);
        settled = rerun.added ∙ ap (λ l. m.ran e ++ l) nothing ∙ append-nil (m.ran e);
      }
