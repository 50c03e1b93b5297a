-- ===== src/Migrations/Examples.antt =====
-- A database of the time before the migrations, which has the table and no version, under two migrations.
use mathlib.Core.List.{append-nil}
use helpdesk_microservices.Base.{
  ℕ, zero, suc, ◌+◌, ◌<◌, ◌≤◌, ◌≡◌, refl, sym, ap, Bool, true, false, Option, none, some, List, [],
  ◌∷◌, ◌++◌, All, Result, ok, err, ok-injective, arith,
}
use helpdesk_microservices.Migrations.{
  Version, UpError, up_answer, version_number, Migrator, migrate_up, adopt, run, Migrated,
  run-Migrated,
}

data Schema : Type 0 where
  unversioned : (ran : List ℕ) (has_tickets : Bool) → Schema
  versioned : (number : ℕ) (ran : List ℕ) (has_tickets : Bool) → Schema

abbrev version_of : Schema → Option Version
version_of (unversioned ran t) = none
version_of (versioned n ran t) = some (record { number = n; dirty = false })

abbrev ran_on : Schema → List ℕ
ran_on (unversioned ran t) = ran
ran_on (versioned n ran t) = ran

abbrev has_tickets : Schema → Bool
has_tickets (unversioned ran t) = t
has_tickets (versioned n ran t) = t

abbrev up_to_two : Schema → Result UpError (Unit {0}) × Schema
up_to_two (unversioned ran t) = (ok tt, versioned 2 (ran ++ 1 ∷ 2 ∷ []) true)
up_to_two (versioned zero ran t) = (ok tt, versioned 2 (ran ++ 1 ∷ 2 ∷ []) true)
up_to_two (versioned (suc zero) ran t) = (ok tt, versioned 2 (ran ++ 2 ∷ []) t)
up_to_two (versioned (suc (suc zero)) ran t) = (err UpError.no_change, versioned 2 ran t)
up_to_two (versioned (suc (suc (suc n))) ran t) =
    (err (UpError.failed "no migration"), versioned (n + 3) ran t)

up_to_two-runs :
    (d : Schema)
    → (new : List ℕ) × (ran_on (up_to_two d).1 ≡ ran_on d ++ new)
      × All (λ n. (version_number (version_of d) < n) × (n ≤ 2)) new
up_to_two-runs (unversioned ran t) =
    (1 ∷ 2 ∷ [], refl, ((omega arith, omega arith), ((omega arith, omega arith), tt)))
up_to_two-runs (versioned zero ran t) =
    (1 ∷ 2 ∷ [], refl, ((omega arith, omega arith), ((omega arith, omega arith), tt)))
up_to_two-runs (versioned (suc zero) ran t) = (2 ∷ [], refl, ((omega arith, omega arith), tt))
up_to_two-runs (versioned (suc (suc zero)) ran t) = ([], sym (append-nil ran), tt)
up_to_two-runs (versioned (suc (suc (suc n))) ran t) = ([], sym (append-nil ran), tt)

abbrev IsTwo : Schema → Type 0
IsTwo d = version_of d ≡ some (record { number = 2; dirty = false })

up_to_two-ok : (d e : Schema) → up_to_two d ≡ (ok tt, e) → IsTwo e
up_to_two-ok (unversioned ran t) e h = ap (λ r. version_of r.1) (sym h)
up_to_two-ok (versioned zero ran t) e h = ap (λ r. version_of r.1) (sym h)
up_to_two-ok (versioned (suc zero) ran t) e h = ap (λ r. version_of r.1) (sym h)
up_to_two-ok (versioned (suc (suc zero)) ran t) e h = absurd (ground (arith, ap (λ r. r.0) h))
up_to_two-ok (versioned (suc (suc (suc n))) ran t) e h = absurd (ground (arith, ap (λ r. r.0) h))

up_to_two-no_change : (d e : Schema) → up_to_two d ≡ (err UpError.no_change, e) → (e ≡ d) × IsTwo d
up_to_two-no_change (unversioned ran t) e h = absurd (ground (arith, ap (λ r. r.0) h))
up_to_two-no_change (versioned zero ran t) e h = absurd (ground (arith, ap (λ r. r.0) h))
up_to_two-no_change (versioned (suc zero) ran t) e h = absurd (ground (arith, ap (λ r. r.0) h))
up_to_two-no_change (versioned (suc (suc zero)) ran t) e h = (ap (λ r. r.1) (sym h), refl)
up_to_two-no_change (versioned (suc (suc (suc n))) ran t) e h =
    absurd (ground (arith, ap (λ r. r.0) h))

abbrev two_migrations : Migrator Schema
two_migrations = record {
  latest = 2;
  version = version_of;
  ran = ran_on;
  exists = λ d t. has_tickets d;
  open_instance = λ d. ok tt;
  get_version = λ d. ok (version_of d);
  table_exists = λ d t. ok (has_tickets d);
  force = λ d n. (ok tt, versioned n (ran_on d) (has_tickets d));
  up = up_to_two;
  get_version_version = λ d v h. sym (ok-injective h);
  table_exists_exists = λ d t b h. sym (ok-injective h);
  force_version = λ d e n h. ap (λ r. version_of r.1) (sym h);
  force_ran = λ d n. refl;
  up_runs = up_to_two-runs;
  up_ok = up_to_two-ok;
  up_no_change = up_to_two-no_change;
}

run-Migrated_example :
    Migrated two_migrations
      (unversioned [] true)
      "tickets"
      (versioned 2 (2 ∷ []) true)
      (versioned 2 (2 ∷ []) true)
unfolding run adopt migrate_up up_answer
run-Migrated_example =
    run-Migrated two_migrations (unversioned [] true) _ _ "tickets" (ok tt) refl refl
