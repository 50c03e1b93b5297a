-- ===== src/Db/Selection.antt =====
-- What a query gives: rows that match, in order, and no more than its limit.
use helpdesk_microservices.Base.{
  ℕ, zero, suc, ◌≤◌, ◌≡◌, refl, sym, ◌∙◌, Bool, true, not, Option, none, some, List, [], ◌∷◌, All,
  All-take, All-drop, length, length-take_le, take, drop, keep, count_by, arith, pos_part, ℤ, subst,
}
use helpdesk_microservices.Db.Defs.{Query, Selected, IsSorted, Direction, window}

module _ {Row : Type 0} where
  count_other-keep : (p : Row → Bool) (rs : List Row) → count_by (λ r. not (p r)) (keep p rs) ≡ 0
  unfolding count_by keep
  count_other-keep p [] = refl
  count_other-keep p (r ∷ rs) = ground (arith, count_other-keep p rs)

  All-of_count :
      (p : Row → Bool) (rs : List Row) → count_by (λ r. not (p r)) rs ≡ 0 → All (λ r. p r ≡ true) rs
  unfolding count_by
  All-of_count p [] h = tt
  All-of_count p (r ∷ rs) h = ground (arith, All-of_count p rs)

  All-window :
      (P : Row → Type 0) (lim : Option ℕ) (off : ℤ) (rs : List Row)
      → All P rs
      → All P (window lim off rs)
  All-window P none off rs h = All-drop P (pos_part off) rs h
  All-window P (some n) off rs h = All-take P n _ (All-drop P (pos_part off) rs h)

  drop-IsSorted :
      (k : Row → ℕ) (dir : Direction) (n : ℕ) (rs : List Row)
      → IsSorted k dir rs
      → IsSorted k dir (drop n rs)
  drop-IsSorted k dir zero rs h = h
  drop-IsSorted k dir (suc n) [] h = tt
  drop-IsSorted k dir (suc n) (r ∷ rs) h = drop-IsSorted k dir n rs h.1

  take-IsSorted :
      (k : Row → ℕ) (dir : Direction) (n : ℕ) (rs : List Row)
      → IsSorted k dir rs
      → IsSorted k dir (take n rs)
  take-IsSorted k dir zero rs h = tt
  take-IsSorted k dir (suc n) [] h = tt
  take-IsSorted k dir (suc n) (r ∷ rs) h = (All-take _ n rs h.0, take-IsSorted k dir n rs h.1)

  window-IsSorted :
      (k : Row → ℕ) (dir : Direction) (lim : Option ℕ) (off : ℤ) (rs : List Row)
      → IsSorted k dir rs
      → IsSorted k dir (window lim off rs)
  window-IsSorted k dir none off rs h = drop-IsSorted k dir (pos_part off) rs h
  window-IsSorted k dir (some n) off rs h =
      take-IsSorted k dir n _ (drop-IsSorted k dir (pos_part off) rs h)

  module _ {q : Query Row} {rows rs : List Row} (s : Selected q rows rs) where
    pub Selected-All : All (λ r. q.matching r ≡ true) rs
    Selected-All = subst (All (λ r. q.matching r ≡ true)) (sym s.chosen) (
        All-window _ q.limit q.offset s.every (
          All-of_count q.matching s.every
            (s.same (λ r. not (q.matching r)) ∙ count_other-keep q.matching rows)))

    pub Selected-IsSorted : IsSorted q.sort_key q.direction rs
    Selected-IsSorted =
        subst (IsSorted q.sort_key q.direction) (sym s.chosen)
          (window-IsSorted q.sort_key q.direction q.limit q.offset s.every s.sorted)

    pub Selected-length : (n : ℕ) → q.limit ≡ some n → length rs ≤ n
    Selected-length n e =
        subst (λ (l : List Row). length l ≤ n) (sym s.chosen)
          (rw e (length-take_le n (drop (pos_part q.offset) s.every)))
