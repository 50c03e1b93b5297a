-- ===== src/Gateway/Buckets.antt =====
-- How many requests the token bucket lets through.
use helpdesk_microservices.Base.{
  ℕ, suc, ◌+◌, ◌-◌, ◌*◌, ◌≤◌, ◌≡◌, refl, sym, inl, inr, ◌=s=◌, eq_refl, eq_iff, Bool, true, false,
  ◌&&◌, subst, leb, Option, none, some, String, List, [], ◌∷◌, arith, Bool-cases, if◌then◌else◌,
}
use helpdesk_microservices.Gateway.RateLimiter.{
  one_token, Visitor, Visitors, insert, full, refilled, visit, allow,
}

module _ (rate burst : ℕ) where
  -- A bucket holds no more than the burst and was last seen by now.
  abbrev pub InBounds : ℕ → Option Visitor → Type 0
  InBounds now none = Unit {0}
  InBounds now (some v) = (v.tokens ≤ full rate burst) × (v.last_seen ≤ now)

  abbrev pub spent : Bool → ℕ
  spent true = one_token
  spent false = 0

  visit-InBounds :
      (o : Option Visitor) (now : ℕ)
      → InBounds now o
      → InBounds now (some (visit rate burst o now).1)
  unfolding visit refilled
  visit-InBounds none now h = ground arith
  visit-InBounds (some v) now h = ground arith

  later_eq :
      (t0 t end : ℕ) → t0 ≤ t → t ≤ end → (end - t) * rate + (t - t0) * rate ≡ (end - t0) * rate
  later_eq t0 t end h g = grind arith

  abbrev pub lesser : ℕ → ℕ → ℕ
  lesser m n = if leb m n then m else n

  -- What a bucket has at `start`: the burst for a new one, else what it had and what came since, and no more
  -- than the burst.
  abbrev pub had : Option Visitor → (start : ℕ) → ℕ
  had none start = full rate burst
  had (some v) start = lesser (full rate burst) (v.tokens + (start - v.last_seen) * rate)

  -- The most that a bucket can pay for from `start` to `end`.
  abbrev pub credit : Option Visitor → (start end : ℕ) → ℕ
  credit o start end = had o start + (end - start) * rate

  -- What a visit spends, and what is left to spend, was there.
  visit_le :
      (o : Option Visitor) (start now end : ℕ)
      → 1 ≤ burst
      → InBounds start o
      → start ≤ now
      → now ≤ end
      → spent (visit rate burst o now).0 + credit (some (visit rate burst o now).1) now end
        ≤ credit o start end
  unfolding visit refilled
  visit_le none start now end h b s e = let later = later_eq start now end s e in ground arith
  visit_le (some v) start now end h b s e =
      let since = later_eq v.last_seen start now b.1 s in
      let later = later_eq start now end s e in ground arith

  -- Requests at growing times from `start` to `end`, each with its key.
  abbrev pub Within : (start end : ℕ) → List (ℕ × String) → Type 0
  Within start end [] = start ≤ end
  Within start end ((now, key) ∷ requests) = (start ≤ now) × (now ≤ end) × Within now end requests

  -- How many of them the limiter lets through for one key.
  unfoldable pub passed : (key : String) → Visitors → List (ℕ × String) → ℕ
  unfolding allow
  passed key vs [] = 0
  passed key vs ((now, k) ∷ requests) =
      let (allowed, vs') = allow rate burst vs now k in
      let rest = passed key vs' requests in if k =s= key && allowed then suc rest else rest

  InBounds-later :
      (start now : ℕ) (o : Option Visitor) → start ≤ now → InBounds start o → InBounds now o
  InBounds-later start now none h b = tt
  InBounds-later start now (some v) h b = (b.0, omega arith)

  credit-later :
      (start now end : ℕ) (o : Option Visitor)
      → start ≤ now
      → now ≤ end
      → InBounds start o
      → credit o now end ≤ credit o start end
  credit-later start now end none h g b = let later = later_eq start now end h g in omega arith
  credit-later start now end (some v) h g b =
      let since = later_eq v.last_seen start now b.1 h in
      let later = later_eq start now end h g in ground arith

  insert_hit : (key : String) (v : Visitor) (vs : Visitors) → insert key v vs key ≡ some v
  unfolding insert
  insert_hit key v vs = rw (eq_refl key) refl

  insert_miss :
      (key k : String) (v : Visitor) (vs : Visitors)
      → (k =s= key) ≡ false
      → insert k v vs key ≡ vs key
  unfolding insert
  insert_miss key k v vs h =
      let other : (key =s= k) ≡ false =
        ground (arith, h, eq_iff k key, eq_iff key k, eq_refl key) in
      rw other refl

  cost_le :
      (allowed : Bool) (rest : ℕ)
      → (if allowed then suc rest else rest) * one_token ≤ spent allowed + rest * one_token
  cost_le true rest = omega arith
  cost_le false rest = omega arith

  -- For a burst of at least one token and a bucket within its bounds: over requests at growing
  -- times, from any keys, those that are let through for one key cost no more than its bucket
  -- has at the start, which is at most the burst however long it was idle, and the rate times
  -- the time from the start to the end.
  pub passed_le :
      (key : String) (start end : ℕ) (vs : Visitors) (requests : List (ℕ × String))
      → 1 ≤ burst
      → InBounds start (vs key)
      → Within start end requests
      → passed key vs requests * one_token ≤ credit (vs key) start end
  unfolding passed allow
  passed_le key start end vs [] h b w = omega arith
  passed_le key start end vs ((now, k) ∷ requests) h b w =
      let (s, e, later) = w in
      elim (Bool-cases (k =s= key)) [
        | inl hit ↦
            let same : k ≡ key = (eq_iff k key).0 hit in
            let bounds = InBounds-later start now (vs key) s b in
            let left = insert_hit key (visit rate burst (vs key) now).1 vs in
            let rest =
              passed_le key now end (insert key (visit rate burst (vs key) now).1 vs) requests h
                (subst (InBounds now) (sym left) (visit-InBounds (vs key) now bounds)) later in
            let cost =
              cost_le (visit rate burst (vs key) now).0
                (passed key (insert key (visit rate burst (vs key) now).1 vs) requests) in
            let paid = visit_le (vs key) start now end h b s e in
            let after = rw left at rest in rw (same, eq_refl key) (omega (arith, cost, paid, after))
        | inr miss ↦
            let left = insert_miss key k (visit rate burst (vs k) now).1 vs miss in
            let rest =
              passed_le key now end (insert k (visit rate burst (vs k) now).1 vs) requests h
                (subst (InBounds now) (sym left) (InBounds-later start now (vs key) s b)) later in
            let after = rw left at rest in
            let less = credit-later start now end (vs key) s e b in
            rw miss (omega (arith, after, less))
      ]
