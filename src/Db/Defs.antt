-- ===== src/Db/Defs.antt =====
-- The interface of a table, and the predicates by which its laws are stated.
use mathlib.Core.List.{Memᴰ}
use helpdesk_microservices.Base.{
  ℕ, ◌≤◌, ◌<◌, ◌≡◌, ◌≢◌, Bool, true, Option, none, some, List, [], ◌∷◌, ◌++◌, map, not, All, keep,
  take, drop, count_by, find_by, Result, ok, err, ◌==◌, if◌then◌else◌, ℤ, pos_part,
}

pub data DbError : Type 0 where
  record_not_found failed : DbError

pub data Direction : Type 0 where
  asc desc : Direction

-- `Where(…).Order(…).Limit(…).Offset(…)`; no limit is `none`, and an offset of 0 or less is none.
pub record Query (Row : Type 0) : Type 0 where
  pub matching : Row → Bool
  pub sort_key : Row → ℕ
  pub direction : Direction
  pub limit : Option ℕ
  pub offset : ℤ

abbrev pub window {ℓ} : {A : Type ℓ} → Option ℕ → ℤ → List A → List A
window lim off xs = elim lim [
  | Option.none ↦ drop (pos_part off) xs
  | Option.some n ↦ take n (drop (pos_part off) xs)
]

abbrev pub InOrder : Direction → ℕ → ℕ → Type 0
InOrder Direction.asc a b = a ≤ b
InOrder Direction.desc a b = b ≤ a

abbrev pub IsSorted : {Row : Type 0} → (Row → ℕ) → Direction → List Row → Type 0
IsSorted k dir [] = Unit {0}
IsSorted k dir (x ∷ xs) = All (λ y. InOrder dir (k x) (k y)) xs × IsSorted k dir xs

-- The same rows as often, in any order.
abbrev pub SameRows : {Row : Type 0} → List Row → List Row → Type 0
SameRows {Row} xs ys = (p : Row → Bool) → count_by p xs ≡ count_by p ys

-- What a query selects: all matching rows, sorted, and of those a window.
pub record Selected {Row : Type 0} (q : Query Row) (rows rs : List Row) : Type 0 where
  pub every : List Row
  pub same : SameRows every (keep q.matching rows)
  pub sorted : IsSorted q.sort_key q.direction every
  pub chosen : rs ≡ window q.limit q.offset every

abbrev pub has_key : {Row : Type 0} → (Row → ℕ) → ℕ → Row → Bool
has_key key i r = key r == i

-- A row as stored: `defaults id now` is what GORM and the column defaults fill in.
pub record Inserted {Row : Type 0} (key : Row → ℕ) (defaults : ℕ → ℕ → Row → Row) (row stored : Row)
    (before after : List Row) : Type 0 where
  pub new_id : ℕ
  pub now : ℕ
  pub filled : stored ≡ defaults new_id now row
  pub positive : 0 < new_id
  pub fresh : All (λ r. key r ≢ key stored) before
  pub appended : after ≡ before ++ stored ∷ []

abbrev pub update_where : {Row : Type 0} → (Row → Bool) → (Row → Row) → List Row → List Row
update_where p f = map (λ r. if p r then f r else r)

pub record Table (Db Row : Type 0) (key : Row → ℕ) (defaults : ℕ → ℕ → Row → Row) : Type 0 where
  pub rows : Db → List Row
  -- `Find`, `First(&x, id)`, `Where(…).First(&x)`, `Where(…).Count`
  pub find : Db → Query Row → Result DbError (List Row)
  pub first : Db → ℕ → Result DbError Row
  pub first_where : Db → (Row → Bool) → Result DbError Row
  pub count : Db → (Row → Bool) → Result DbError ℕ
  -- `Where(…).Updates(…)`, `Create`, `Where(…).Delete`, which tells the rows affected
  pub updates : Db → (Row → Bool) → (Row → Row) → Result DbError Db
  pub create : Db → Row → Result DbError (Row × Db)
  pub delete : Db → (Row → Bool) → Result DbError (ℕ × Db)
  pub find_selected :
      (d : Db) (q : Query Row) (rs : List Row) → find d q ≡ ok rs → Selected q (rows d) rs
  pub first_found :
      (d : Db) (i : ℕ) (r : Row) → first d i ≡ ok r → find_by (has_key key i) (rows d) ≡ some r
  pub first_missing :
      (d : Db) (i : ℕ)
      → first d i ≡ err DbError.record_not_found
      → find_by (has_key key i) (rows d) ≡ none
  pub first_where_found :
      (d : Db) (p : Row → Bool) (r : Row) → first_where d p ≡ ok r → (p r ≡ true) × Memᴰ r (rows d)
  pub first_where_missing :
      (d : Db) (p : Row → Bool)
      → first_where d p ≡ err DbError.record_not_found
      → count_by p (rows d) ≡ 0
  pub count_rows : (d : Db) (p : Row → Bool) (n : ℕ) → count d p ≡ ok n → n ≡ count_by p (rows d)
  pub updates_rows :
      (d e : Db) (p : Row → Bool) (f : Row → Row)
      → updates d p f ≡ ok e
      → rows e ≡ update_where p f (rows d)
  pub create_inserted :
      (d e : Db) (row stored : Row)
      → create d row ≡ ok (stored, e)
      → Inserted key defaults row stored (rows d) (rows e)
  pub delete_rows :
      (d e : Db) (p : Row → Bool) (n : ℕ)
      → delete d p ≡ ok (n, e)
      → (rows e ≡ keep (λ r. not (p r)) (rows d)) × (n ≡ count_by p (rows d))
