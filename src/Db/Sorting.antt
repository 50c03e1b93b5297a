-- ===== src/Db/Sorting.antt =====
-- Sorting of rows by a number, ascending or descending.
use helpdesk_microservices.Base.{
  ℕ, ◌+◌, ◌≡◌, refl, inl, inr, Bool, true, false, List, [], ◌∷◌, All, All-map, count_by, sum_by,
  leb, if◌then◌else◌, arith, Bool-cases,
}
use helpdesk_microservices.Db.Defs.{Direction, asc, desc, InOrder, IsSorted, SameRows}

-- Which of two rows comes first.
unfoldable pub goes_before : Direction → ℕ → ℕ → Bool
goes_before asc a b = leb a b
goes_before desc a b = leb b a

goes_before-InOrder : (dir : Direction) (a b : ℕ) → goes_before dir a b ≡ true → InOrder dir a b
unfolding goes_before
goes_before-InOrder asc a b h = ground arith
goes_before-InOrder desc a b h = ground arith

goes_after-InOrder : (dir : Direction) (a b : ℕ) → goes_before dir a b ≡ false → InOrder dir b a
unfolding goes_before
goes_after-InOrder asc a b h = ground arith
goes_after-InOrder desc a b h = ground arith

module _ {Row : Type 0} where
  unfoldable pub insert_row : (Row → ℕ) → Direction → Row → List Row → List Row
  unfolding goes_before
  insert_row k dir r [] = r ∷ []
  insert_row k dir r (x ∷ xs) =
      if goes_before dir (k r) (k x) then r ∷ x ∷ xs else x ∷ insert_row k dir r xs

  unfoldable pub sort_rows : (Row → ℕ) → Direction → List Row → List Row
  unfolding insert_row
  sort_rows k dir [] = []
  sort_rows k dir (x ∷ xs) = insert_row k dir x (sort_rows k dir xs)

  count-insert_row :
      (k : Row → ℕ) (dir : Direction) (p : Row → Bool) (r : Row) (xs : List Row)
      → count_by p (insert_row k dir r xs) ≡ count_by p (r ∷ xs)
  unfolding insert_row count_by
  count-insert_row k dir p r [] = refl
  count-insert_row k dir p r (x ∷ xs) = ground (arith, count-insert_row k dir p r xs)

  pub sort_rows-same :
      (k : Row → ℕ) (dir : Direction) (xs : List Row) → SameRows (sort_rows k dir xs) xs
  unfolding sort_rows count_by
  sort_rows-same k dir [] p = refl
  sort_rows-same k dir (x ∷ xs) p =
      ground (arith, count-insert_row k dir p x (sort_rows k dir xs), sort_rows-same k dir xs p)

  InOrder-trans :
      (k : Row → ℕ) (dir : Direction) (r x : Row)
      → InOrder dir (k r) (k x)
      → (y : Row) → InOrder dir (k x) (k y)
      → InOrder dir (k r) (k y)
  InOrder-trans k asc r x h y g = omega arith
  InOrder-trans k desc r x h y g = omega arith

  All-insert_row :
      (k : Row → ℕ) (dir : Direction) (P : Row → Type 0) (r : Row) (xs : List Row)
      → P r
      → All P xs
      → All P (insert_row k dir r xs)
  unfolding insert_row
  All-insert_row k dir P r [] h g = (h, tt)
  All-insert_row k dir P r (x ∷ xs) h g = ground (arith, All-insert_row k dir P r xs h g.1)

  insert_row-IsSorted :
      (k : Row → ℕ) (dir : Direction) (r : Row) (xs : List Row)
      → IsSorted k dir xs
      → IsSorted k dir (insert_row k dir r xs)
  unfolding insert_row
  insert_row-IsSorted k dir r [] h = (tt, tt)
  insert_row-IsSorted k dir r (x ∷ xs) h = elim (Bool-cases (goes_before dir (k r) (k x))) [
    | inl e ↦
        let first = goes_before-InOrder dir (k r) (k x) e in
        rw e ((first, All-map (InOrder-trans k dir r x first) xs h.0), h)
    | inr e ↦ rw e (
      All-insert_row k dir _ r xs (goes_after-InOrder dir (k r) (k x) e) h.0,
      insert_row-IsSorted k dir r xs h.1,
    )
  ]

  pub sort_rows-IsSorted :
      (k : Row → ℕ) (dir : Direction) (xs : List Row) → IsSorted k dir (sort_rows k dir xs)
  unfolding sort_rows
  sort_rows-IsSorted k dir [] = tt
  sort_rows-IsSorted k dir (x ∷ xs) =
      insert_row-IsSorted k dir x (sort_rows k dir xs) (sort_rows-IsSorted k dir xs)

  sum-insert_row :
      (k : Row → ℕ) (dir : Direction) (w : Row → ℕ) (r : Row) (xs : List Row)
      → sum_by w (insert_row k dir r xs) ≡ w r + sum_by w xs
  unfolding insert_row sum_by
  sum-insert_row k dir w r [] = refl
  sum-insert_row k dir w r (x ∷ xs) = ground (arith, sum-insert_row k dir w r xs)

  pub sum-sort_rows :
      (k : Row → ℕ) (dir : Direction) (w : Row → ℕ) (xs : List Row)
      → sum_by w (sort_rows k dir xs) ≡ sum_by w xs
  unfolding sort_rows sum_by
  sum-sort_rows k dir w [] = refl
  sum-sort_rows k dir w (x ∷ xs) =
      omega (arith, sum-insert_row k dir w x (sort_rows k dir xs), sum-sort_rows k dir w xs)
