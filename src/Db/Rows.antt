-- ===== src/Db/Rows.antt =====
-- Rows with distinct keys under the three kinds of change: insert, update by key, delete.
use helpdesk_microservices.Base.{
  ℕ, ◌≡◌, ◌≢◌, sym, subst, Bool, inl, inr, some, List, [], ◌∷◌, ◌++◌, All, find_by, ◌==◌, arith,
  if◌then◌else◌, Bool-cases, ==_iff,
}
use helpdesk_microservices.Db.Defs.{has_key, update_where}

module _ {Row : Type 0} (key : Row → ℕ) where
  -- No two rows have one key.
  abbrev pub Distinct : List Row → Type 0
  Distinct [] = Unit {0}
  Distinct (r ∷ rs) = All (λ x. key x ≢ key r) rs × Distinct rs

  pub Distinct-append :
      (rs : List Row) (x : Row)
      → Distinct rs
      → All (λ r. key r ≢ key x) rs
      → Distinct (rs ++ x ∷ [])
  Distinct-append [] x d f = (tt, tt)
  Distinct-append (r ∷ rs) x d f = (later rs d.0 f.0, Distinct-append rs x d.1 f.1)
    where
      later :
          (l : List Row)
          → All (λ y. key y ≢ key r) l
          → key r ≢ key x
          → All (λ y. key y ≢ key r) (l ++ x ∷ [])
      later [] a n = ((λ e. n (sym e)), tt)
      later (y ∷ l) a n = (a.0, later l a.1 n)

  module _ (i : ℕ) (f : Row → Row) (same_key : (r : Row) → key (f r) ≡ key r) where
    update_where-keys :
        (n : ℕ) (rs : List Row)
        → All (λ x. key x ≢ n) rs
        → All (λ x. key x ≢ n) (update_where (has_key key i) f rs)
    update_where-keys n [] a = tt
    update_where-keys n (r ∷ rs) a = ground (arith, same_key r, update_where-keys n rs a.1)

    pub update_where-Distinct :
        (rs : List Row) → Distinct rs → Distinct (update_where (has_key key i) f rs)
    update_where-Distinct [] d = tt
    update_where-Distinct (r ∷ rs) d = elim (Bool-cases (key r == i)) [
      | inl e ↦ rw (e, same_key r) (update_where-keys (key r) rs d.0, update_where-Distinct rs d.1)
      | inr e ↦ rw e (update_where-keys (key r) rs d.0, update_where-Distinct rs d.1)
    ]

  module _ (P Q : Row → Type 0) (i : ℕ) (f : Row → Row)
      (others : (r : Row) → key r ≢ i → P r → Q r) where
    update_where-All_others :
        (rs : List Row)
        → All (λ x. key x ≢ i) rs
        → All P rs
        → All Q (update_where (has_key key i) f rs)
    update_where-All_others [] a h = tt
    update_where-All_others (r ∷ rs) a h =
        ground (arith, others r a.0 h.0, update_where-All_others rs a.1 h.1)

    -- An update of the row with key `i`, which is `t`, and of no other.
    pub update_where-All :
        (rs : List Row) (t : Row)
        → Distinct rs
        → find_by (has_key key i) rs ≡ some t
        → All P rs
        → (P t → Q (f t))
        → All Q (update_where (has_key key i) f rs)
    unfolding find_by
    update_where-All [] t d e h g = tt
    update_where-All (r ∷ rs) t d e h g = elim (Bool-cases (key r == i)) [
      | inl hit ↦
          let at : r ≡ t = ground arith in
          let here : key r ≡ i = (==_iff _ _).0 hit in
          rw hit (rw at (g (rw (← at) h.0)), update_where-All_others rs (rw (← here) d.0) h.1)
      | inr miss ↦ rw miss (
        others r (λ q. cc (miss, (==_iff (key r) i).1 q)) h.0,
        update_where-All rs t d.1 (rw miss at e) h.1 g,
      )
    ]

-- What holds of every row holds of the one that is found.
pub find_by-All :
    {Row : Type 0} (P : Row → Type 0) (p : Row → Bool) (rs : List Row) (t : Row)
    → find_by p rs ≡ some t
    → All P rs
    → P t
unfolding find_by
find_by-All P p [] t e h = cc
find_by-All P p (r ∷ rs) t e h = elim (Bool-cases (p r)) [
  | inl hit ↦ let at : r ≡ t = ground arith in subst P at h.0
  | inr miss ↦ find_by-All P p rs t (ground arith) h.1
]

-- The row that a search finds is found where rows are added behind.
pub find_by-append :
    {Row : Type 0} (p : Row → Bool) (rs xs : List Row) (t : Row)
    → find_by p rs ≡ some t
    → find_by p (rs ++ xs) ≡ some t
unfolding find_by
find_by-append p [] xs t e = cc
find_by-append p (r ∷ rs) xs t e = ground (arith, find_by-append p rs xs t)

-- A row that is found by its key is found after an update that keeps the keys, as it is or rewritten.
pub find_by-update_where :
    {Row : Type 0} (key : Row → ℕ) (i j : ℕ) (f : Row → Row)
    → ((r : Row) → key (f r) ≡ key r)
    → (rs : List Row) (t : Row) → find_by (has_key key j) rs ≡ some t
    → find_by (has_key key j) (update_where (has_key key i) f rs)
      ≡ some (if key t == i then f t else t)
unfolding find_by
find_by-update_where key i j f same_key [] t e = cc
find_by-update_where key i j f same_key (r ∷ rs) t e =
    ground (arith, same_key r, find_by-update_where key i j f same_key rs t)
