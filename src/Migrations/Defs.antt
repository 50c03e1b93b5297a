-- ===== src/Migrations/Defs.antt =====
-- golang-migrate and the database as `Run` uses them, and `Run`.
use helpdesk_microservices.Base.{
  ℕ, ◌<◌, ◌≤◌, ◌≡◌, Bool, true, false, Option, none, some, String, List, ◌++◌, All, Result, ok, err,
}

-- The version and its dirty flag; a database that no migration has been applied to has none.
pub record Version : Type 0 where
  pub number : ℕ
  pub dirty : Bool

pub data UpError : Type 0 where
  no_change : UpError
  failed : String → UpError

pub data RunError : Type 0 where
  dirty_state : (version : ℕ) → RunError
  passed_on : String → RunError

abbrev pub version_number : Option Version → ℕ
version_number none = 0
version_number (some v) = v.number

-- The library, over a source with the migrations 1 to `latest`. `version`, `ran` and `exists` are what is
-- in the database: the row of schema_migrations, the migrations whose SQL has been started, and the tables.
-- An operation answers and leaves a database, where it fails too.
pub record Migrator (Db : Type 0) : Type 0 where
  pub latest : ℕ
  pub version : Db → Option Version
  pub ran : Db → List ℕ
  pub exists : Db → String → Bool
  pub open_instance : Db → Result String (Unit {0})
  pub get_version : Db → Result String (Option Version)
  pub table_exists : Db → String → Result String Bool
  pub force : Db → ℕ → Result String (Unit {0}) × Db
  pub up : Db → Result UpError (Unit {0}) × Db
  pub get_version_version : (d : Db) (v : Option Version) → get_version d ≡ ok v → v ≡ version d
  pub table_exists_exists :
      (d : Db) (t : String) (b : Bool) → table_exists d t ≡ ok b → b ≡ exists d t
  -- `Force` sets the version and runs nothing.
  pub force_version :
      (d e : Db) (n : ℕ)
      → force d n ≡ (ok tt, e)
      → version e ≡ some (record { number = n; dirty = false })
  pub force_ran : (d : Db) (n : ℕ) → ran (force d n).1 ≡ ran d
  -- `Up` runs migrations that come after the version, and where it succeeds the version is the latest.
  pub up_runs :
      (d : Db)
      → (new : List ℕ) × (ran (up d).1 ≡ ran d ++ new)
        × All (λ n. (version_number (version d) < n) × (n ≤ latest)) new
  pub up_ok :
      (d e : Db) → up d ≡ (ok tt, e) → version e ≡ some (record { number = latest; dirty = false })
  pub up_no_change :
      (d e : Db)
      → up d ≡ (err no_change, e)
      → (e ≡ d) × (version d ≡ some (record { number = latest; dirty = false }))

-- ErrNoChange is no error.
unfoldable pub up_answer : Result UpError (Unit {0}) → Result RunError (Unit {0})
up_answer (ok _) = ok tt
up_answer (err UpError.no_change) = ok tt
up_answer (err (UpError.failed why)) = err (RunError.passed_on why)

module _ {Db : Type 0} (m : Migrator Db) where
  -- `m.Up()`
  unfoldable pub migrate_up : Db → Result RunError (Unit {0}) × Db
  migrate_up d = let (r, e) = m.up d in (up_answer r, e)

  -- A database without a version, of which the table exists already, is taken to be at version 1.
  unfoldable pub adopt : Db → (table : String) → Result RunError (Unit {0}) × Db
  unfolding migrate_up
  adopt d table = elim (m.table_exists d table) [
    | err why ↦ (err (passed_on why), d)
    | ok there ↦ elim there [
      | true ↦
          let forced = m.force d 1 in
          elim forced.0 [ ok _ ↦ migrate_up forced.1 | err why ↦ (err (passed_on why), forced.1) ]
      | false ↦ migrate_up d
    ]
  ]

  unfoldable pub run : Db → (adoption_check_table : String) → Result RunError (Unit {0}) × Db
  unfolding migrate_up adopt
  run d table = elim (m.open_instance d) [
    | err why ↦ (err (passed_on why), d)
    | ok _ ↦ elim (m.get_version d) [
      | err why ↦ (err (passed_on why), d)
      | ok version ↦ elim version [
        | none ↦ adopt d table
        | some v ↦ elim v.dirty [ true ↦ (err (dirty_state v.number), d) | false ↦ migrate_up d ]
      ]
    ]
  ]
