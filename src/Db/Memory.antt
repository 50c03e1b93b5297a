-- ===== src/Db/Memory.antt =====
-- A table that keeps its rows in a list and whose calls never fail: the laws can be met.
use mathlib.Core.List.{Memᴰ}
use helpdesk_microservices.Base.{
  ℕ, suc, ◌≡◌, ◌≢◌, refl, inl, inr, sym, ap, ◌∙◌, ok-injective, subst, Bool, not, Option, none,
  some, List, [], ◌∷◌, ◌++◌, All, keep, count_by, find_by, find_by_holds, Result, ok, err, leb,
  if◌then◌else◌, arith, Bool-cases, Option-cases,
}
use helpdesk_microservices.Db.Sorting.{sort_rows, sort_rows-same, sort_rows-IsSorted}
use helpdesk_microservices.Db.Defs.{
  DbError, record_not_found, failed, Query, window, Selected, has_key, Inserted, update_where,
  Table,
}

module _ {Row : Type 0} where
  unfoldable max_key : (Row → ℕ) → List Row → ℕ
  max_key key [] = 0
  max_key key (r ∷ rs) = let m = max_key key rs in if leb m (key r) then key r else m

  missing-fresh :
      (key : Row → ℕ) (n : ℕ) (rs : List Row)
      → find_by (has_key key n) rs ≡ none
      → All (λ r. key r ≢ n) rs
  unfolding find_by
  missing-fresh key n [] h = tt
  missing-fresh key n (r ∷ rs) h = ground (arith, missing-fresh key n rs)

  pub count-zero_of_missing :
      (p : Row → Bool) (rs : List Row) → find_by p rs ≡ none → count_by p rs ≡ 0
  unfolding find_by count_by
  count-zero_of_missing p [] h = refl
  count-zero_of_missing p (r ∷ rs) h = ground (arith, count-zero_of_missing p rs)

  pub find_by-Memᴰ : (p : Row → Bool) (rs : List Row) (r : Row) → find_by p rs ≡ some r → Memᴰ r rs
  unfolding find_by
  find_by-Memᴰ p [] r h = cc
  find_by-Memᴰ p (x ∷ rs) r h = elim (Bool-cases (p x)) [
    | inl e ↦ Memᴰ.head (ground arith)
    | inr e ↦ Memᴰ.tail (find_by-Memᴰ p rs r (ground arith))
  ]

abbrev pub found_or : {A : Type 0} → Option A → Result DbError A
found_or none = err record_not_found
found_or (some a) = ok a

pub found_or-ok : {A : Type 0} (o : Option A) (a : A) → found_or o ≡ ok a → o ≡ some a
found_or-ok none a h = cc
found_or-ok (some b) a h = ground arith

pub found_or-err : {A : Type 0} (o : Option A) → found_or o ≡ err record_not_found → o ≡ none
found_or-err none h = refl
found_or-err (some b) h = cc

-- `get` and `put` pick one table of a database; `now` is the clock of the inserts.
module _ {Db Row : Type 0} (get : Db → List Row) (put : Db → List Row → Db)
    (get-put : (d : Db) (rs : List Row) → get (put d rs) ≡ rs) (key : Row → ℕ)
    (defaults : ℕ → ℕ → Row → Row) (now : ℕ) where
  unfoldable filled_in : Db → Row → Row
  unfolding max_key
  filled_in d row = defaults (suc (max_key key (get d))) now row

  unfoldable pub create_in : Db → Row → Result DbError (Row × Db)
  unfolding filled_in find_by
  create_in d row =
      let stored = filled_in d row in
      elim (find_by (has_key key (key stored)) (get d)) [
        | none ↦ ok (stored, put d (get d ++ stored ∷ []))
        | some _ ↦ err failed
      ]

  pub create_in-Inserted :
      (d e : Db) (row stored : Row)
      → create_in d row ≡ ok (stored, e)
      → Inserted key defaults row stored (get d) (get e)
  unfolding create_in filled_in
  create_in-Inserted d e row stored h =
      elim (Option-cases (find_by (has_key key (key (filled_in d row))) (get d))) [
        | inl free ↦
            let done = rw (free, create_in) at h in
            let same : filled_in d row ≡ stored = ground arith in
            let state : put d (get d ++ filled_in d row ∷ []) ≡ e = ground arith in
            record {
              new_id = suc (max_key key (get d));
              now = now;
              filled = sym same;
              positive = omega arith;
              fresh =
                  subst (λ s. All (λ r. key r ≢ key s) (get d)) same
                    (missing-fresh key _ (get d) free);
              appended = ground (arith, get-put d (get d ++ filled_in d row ∷ []));
            }
        | inr (r, taken) ↦ let failure = rw (taken, create_in) at h in cc
      ]

  pub create_in-put :
      (d e : Db) (row stored : Row)
      → create_in d row ≡ ok (stored, e)
      → (rs : List Row) × (e ≡ put d rs)
  unfolding create_in
  create_in-put d e row stored h =
      elim (Option-cases (find_by (has_key key (key (filled_in d row))) (get d))) [
        | inl free ↦
            let done = rw (free, create_in) at h in
            (get d ++ filled_in d row ∷ [], ground (arith, done))
        | inr (r, taken) ↦ let failure = rw (taken, create_in) at h in cc
      ]

  unfoldable pub select_in : Db → Query Row → List Row
  unfolding sort_rows
  select_in d q =
      window q.limit q.offset (sort_rows q.sort_key q.direction (keep q.matching (get d)))

  pub select_in-Selected :
      (d : Db) (q : Query Row) (rs : List Row)
      → ◌≡◌ {A = Result DbError (List Row)} (ok (select_in d q)) (ok rs)
      → Selected q (get d) rs
  unfolding select_in
  select_in-Selected d q rs h = record {
    every = sort_rows q.sort_key q.direction (keep q.matching (get d));
    same = sort_rows-same q.sort_key q.direction (keep q.matching (get d));
    sorted = sort_rows-IsSorted q.sort_key q.direction (keep q.matching (get d));
    chosen = ground (arith, h);
  }

  unfoldable pub memory_table : Table Db Row key defaults
  unfolding create_in select_in
  memory_table = record {
    rows = get;
    find = λ d q. ok (select_in d q);
    first = λ d i. found_or (find_by (has_key key i) (get d));
    first_where = λ d p. found_or (find_by p (get d));
    count = λ d p. ok (count_by p (get d));
    updates = λ d p f. ok (put d (update_where p f (get d)));
    create = create_in;
    delete = λ d p. ok (count_by p (get d), put d (keep (λ r. not (p r)) (get d)));
    find_selected = select_in-Selected;
    first_found = λ d i r h. found_or-ok _ r h;
    first_missing = λ d i h. found_or-err _ h;
    first_where_found = λ d p r h.
        (find_by_holds p _ r (found_or-ok _ r h), find_by-Memᴰ p _ r (found_or-ok _ r h));
    first_where_missing = λ d p h. count-zero_of_missing p _ (found_or-err _ h);
    count_rows = λ d p n h. sym (ok-injective h);
    updates_rows =
        λ d e p f h. ap get (sym (ok-injective h)) ∙ get-put d (update_where p f (get d));
    create_inserted = create_in-Inserted;
    delete_rows = λ d e p n h. (
      ap (λ (r : ℕ × Db). get r.1) (sym (ok-injective h))
          ∙ get-put d (keep (λ r. not (p r)) (get d)),
      ap (λ (r : ℕ × Db). r.0) (sym (ok-injective h)),
    );
  }
