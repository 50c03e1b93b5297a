-- ===== src/Db/Counts.antt =====
-- Rows counted before and after an insert or a deletion.
use helpdesk_microservices.Base.{
  ℕ, ◌+◌, ◌≤◌, ◌≡◌, ◌≢◌, refl, inl, inr, Bool, true, false, not, ◌&&◌, ◌||◌, List, [], ◌∷◌, ◌++◌,
  All, length, keep, count_by, ◌==◌, ==_iff, arith, Bool-cases,
}
use helpdesk_microservices.Db.Defs.{has_key}
use helpdesk_microservices.Db.Rows.{Distinct}

module _ {Row : Type 0} (p : Row → Bool) where
  pub count_keep-not : (rs : List Row) → count_by p (keep (λ r. not (p r)) rs) ≡ 0
  unfolding count_by keep
  count_keep-not [] = refl
  count_keep-not (r ∷ rs) = ground (arith, count_keep-not rs)

  pub count_by-append_miss :
      (rs : List Row) (x : Row) → p x ≡ false → count_by p (rs ++ x ∷ []) ≡ count_by p rs
  unfolding count_by
  count_by-append_miss [] x h = ground (arith, h)
  count_by-append_miss (r ∷ rs) x h = ground (arith, count_by-append_miss rs x h)

-- Rows that a deletion does not match stay, in their order.
pub keep-keep :
    {Row : Type 0} (p q : Row → Bool) (others : (r : Row) → q r ≡ true → p r ≡ true) (rs : List Row)
    → keep q (keep p rs) ≡ keep q rs
unfolding keep
keep-keep p q others [] = refl
keep-keep p q others (r ∷ rs) = elim (Bool-cases (q r)) [
  | inl e ↦ ground (arith, e, others r e, keep-keep p q others rs)
  | inr e ↦ ground (arith, e, keep-keep p q others rs)
]

pub keep-append_miss :
    {Row : Type 0} (q : Row → Bool) (rs : List Row) (x : Row)
    → q x ≡ false
    → keep q (rs ++ x ∷ []) ≡ keep q rs
unfolding keep
keep-append_miss q [] x h = ground (arith, h)
keep-append_miss q (r ∷ rs) x h = ground (arith, keep-append_miss q rs x h)

-- Keys in a list, and the rows that have one.
abbrev pub contains : List ℕ → ℕ → Bool
contains [] i = false
contains (j ∷ js) i = i == j || contains js i

module _ {Row : Type 0} (key : Row → ℕ) where
  count_key-absent :
      (i : ℕ) (rs : List Row) → All (λ r. key r ≢ i) rs → count_by (has_key key i) rs ≡ 0
  unfolding count_by
  count_key-absent i [] h = refl
  count_key-absent i (r ∷ rs) h = ground (arith, h.0, count_key-absent i rs h.1)

  count_key_le : (i : ℕ) (rs : List Row) → Distinct key rs → count_by (has_key key i) rs ≤ 1
  unfolding count_by
  count_key_le i [] d = omega arith
  count_key_le i (r ∷ rs) d = elim (Bool-cases (key r == i)) [
    | inl e ↦
        let same : key r ≡ i = (==_iff _ _).0 e in
        let none_left = count_key-absent i rs (rw same at d.0) in ground (arith, e, none_left)
    | inr e ↦ let later = count_key_le i rs d.1 in ground (arith, e, later)
  ]

  count_or_le :
      (p q : Row → Bool) (rs : List Row)
      → count_by (λ r. p r || q r) rs ≤ count_by p rs + count_by q rs
  unfolding count_by
  count_or_le p q [] = omega arith
  count_or_le p q (r ∷ rs) = let later = count_or_le p q rs in ground (arith, later)

  count_by-never : (rs : List Row) → count_by (λ (r : Row). false) rs ≡ 0
  unfolding count_by
  count_by-never [] = refl
  count_by-never (r ∷ rs) = count_by-never rs

  -- Rows with distinct keys are no more than the keys that they are found by.
  pub count-contains_le :
      (ks : List ℕ) (rs : List Row)
      → Distinct key rs
      → count_by (λ r. contains ks (key r)) rs ≤ length ks
  count-contains_le [] rs d = let zero_rows = count_by-never rs in omega arith
  count-contains_le (k ∷ ks) rs d =
      let here = count_key_le k rs d in
      let later = count-contains_le ks rs d in
      let both = count_or_le (has_key key k) (λ r. contains ks (key r)) rs in omega arith

  keep-All : (P : Row → Type 0) (p : Row → Bool) (rs : List Row) → All P rs → All P (keep p rs)
  unfolding keep
  keep-All P p [] h = tt
  keep-All P p (r ∷ rs) h = elim (Bool-cases (p r)) [
    | inl e ↦ rw (e, keep) (h.0, keep-All P p rs h.1)
    | inr e ↦ rw (e, keep) (keep-All P p rs h.1)
  ]

  pub keep-Distinct : (p : Row → Bool) (rs : List Row) → Distinct key rs → Distinct key (keep p rs)
  unfolding keep
  keep-Distinct p [] d = tt
  keep-Distinct p (r ∷ rs) d = elim (Bool-cases (p r)) [
    | inl e ↦ rw (e, keep) (keep-All _ p rs d.0, keep-Distinct p rs d.1)
    | inr e ↦ rw (e, keep) (keep-Distinct p rs d.1)
  ]

-- What passes both tests is no more than what passes the second.
pub count_by-keep :
    {Row : Type 0} (p q : Row → Bool) (rs : List Row)
    → count_by p (keep q rs) ≡ count_by (λ r. q r && p r) rs
unfolding keep count_by
count_by-keep p q [] = refl
count_by-keep p q (r ∷ rs) = ground (arith, count_by-keep p q rs)

pub count_by_mono :
    {Row : Type 0} (p q : Row → Bool) (implies : (r : Row) → p r ≡ true → q r ≡ true)
    (rs : List Row)
    → count_by p rs ≤ count_by q rs
unfolding count_by
count_by_mono p q implies [] = omega arith
count_by_mono p q implies (r ∷ rs) = elim (Bool-cases (p r)) [
  | inl e ↦ let later = count_by_mono p q implies rs in ground (arith, e, implies r e, later)
  | inr e ↦ let later = count_by_mono p q implies rs in ground (arith, e, later)
]
