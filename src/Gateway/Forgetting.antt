-- ===== src/Gateway/Forgetting.antt =====
-- A bucket that is forgotten was full: eviction from the map and expiry in Redis change no answer.
use native.Mathlib.Nat.{mul-le-mul_right, div-add-mod, mod-lt}
use helpdesk_microservices.Base.{
  ℕ, ◌+◌, ◌-◌, ◌*◌, ◌/◌, ◌%◌, ◌≤◌, ◌<◌, ◌≡◌, refl, sym, ap, inl, inr, ltb, Option, none, some,
  String, arith, Bool-cases, Option-cases,
}
use helpdesk_microservices.Gateway.RateLimiter.{
  one_token, Visitor, Visitors, full, refilled, visit, evict, idle_time,
}
use helpdesk_microservices.Gateway.RedisLimiter.{Bucket, token_bucket_script, ttl_ms}

module _ (rate burst : ℕ) where
  full_again :
      (v : Visitor) (now : ℕ)
      → 1 ≤ burst
      → full rate burst ≤ (now - v.last_seen) * rate
      → visit rate burst (some v) now ≡ visit rate burst none now
  unfolding visit refilled
  full_again v now h g = ground arith

  idle-full :
      (last now : ℕ)
      → full rate burst ≤ idle_time * rate
      → last + idle_time ≤ now
      → full rate burst ≤ (now - last) * rate
  idle-full last now h g =
      let longer = mul-le-mul_right {m = idle_time} {n = now - last} rate (omega arith) in
      omega arith

  -- Where three idle minutes refill a bucket, the eviction of the visitors that are older than
  -- three minutes changes nothing that a later visit can tell, with any key: not the answer,
  -- nor the bucket. The burst is at least 1.
  pub visit-evict :
      (vs : Visitors) (cutoff now : ℕ) (key : String)
      → 1 ≤ burst
      → full rate burst ≤ idle_time * rate
      → cutoff + idle_time ≤ now
      → visit rate burst (evict cutoff vs key) now ≡ visit rate burst (vs key) now
  unfolding evict
  visit-evict vs cutoff now key b h g = elim (Option-cases (vs key)) [
    | inl e ↦ rw (e, evict) refl
    | inr (v, e) ↦ elim (Bool-cases (ltb v.last_seen cutoff)) [
      | inl old ↦
          let idle = idle-full v.last_seen now h (ground arith) in
          rw (e, old, evict) (sym (full_again v now b idle))
      | inr recent ↦ rw (e, recent, evict) refl
    ]
  ]

  -- The bucket of the script as a visitor of the map.
  abbrev pub as_visitor : Bucket → Visitor
  as_visitor b = record { tokens = b.tokens; last_seen = b.ts * 1000000 }

  -- The script gives the answer and leaves the tokens that the map's bucket gives and leaves,
  -- at every millisecond and for a key that is there or not.
  token_bucket_script-visit :
      (now : ℕ) (b : Option Bucket)
      → ((token_bucket_script rate burst now b).0
          ≡ (visit rate burst
              (elim b [ none ↦ none | some b ↦ some (as_visitor b) ])
              (now * 1000000)).0)
        × (as_visitor (token_bucket_script rate burst now b).1
            ≡ (visit rate burst
                (elim b [ none ↦ none | some b ↦ some (as_visitor b) ])
                (now * 1000000)).1)
  unfolding token_bucket_script visit refilled
  token_bucket_script-visit now none = (refl, refl)
  token_bucket_script-visit now (some b) =
      let same : (now - b.ts) * 1000000 * rate ≡ (now * 1000000 - b.ts * 1000000) * rate =
        ap (λ x. x * rate) (omega arith) in
      ground (arith, same)

  -- A key that has expired would have been answered as it is without: after its time to live a
  -- bucket is full again, for a rate of at least one token a second and a burst of at least
  -- one.
  token_bucket_script-expired :
      (b : Bucket) (now : ℕ)
      → 1 ≤ burst
      → 1 ≤ rate
      → b.ts + ttl_ms rate burst ≤ now
      → token_bucket_script rate burst now (some b) ≡ token_bucket_script rate burst now none
  unfolding token_bucket_script ttl_ms
  token_bucket_script-expired b now h r g =
      let x = burst * 2 * 1000 + (rate - 1) in
      let lived : rate * (x / rate) + x % rate ≡ x = div-add-mod x rate in
      let small : x % rate < rate = mod-lt x (omega arith) in
      let longer : (x / rate) * rate ≤ (now - b.ts) * rate =
        mul-le-mul_right {m = x / rate} {n = now - b.ts} rate (omega arith) in
      let enough : burst * 2 * 1000 ≤ (now - b.ts) * rate = grind arith in
      let full_now : burst * one_token ≤ (now - b.ts) * 1000000 * rate = grind arith in
      ground (arith, full_now)

  -- What Redis has of a key: what was stored, or nothing once the time to live is over.
  pub data Keeps (now : ℕ) : Option Bucket → Option Bucket → Type 0 where
    stored : (b : Option Bucket) → Keeps now b b
    expired : (b : Bucket) → b.ts + ttl_ms rate burst ≤ now → Keeps now (some b) none

  -- The script gives the answer and leaves the tokens that the map's bucket, which is never
  -- forgotten, gives and leaves: at every millisecond, for a key that is there or not, and
  -- where Redis has dropped the key after its time to live. The rate is at least one token a
  -- second and the burst at least one.
  pub token_bucket_script-Keeps :
      (now : ℕ) (b kept : Option Bucket)
      → 1 ≤ burst
      → 1 ≤ rate
      → Keeps now b kept
      → ((token_bucket_script rate burst now kept).0
          ≡ (visit rate burst
              (elim b [ none ↦ none | some b ↦ some (as_visitor b) ])
              (now * 1000000)).0)
        × (as_visitor (token_bucket_script rate burst now kept).1
            ≡ (visit rate burst
                (elim b [ none ↦ none | some b ↦ some (as_visitor b) ])
                (now * 1000000)).1)
  token_bucket_script-Keeps now b kept h r (stored _) = token_bucket_script-visit now b
  token_bucket_script-Keeps now b kept h r (expired old over) =
      rw (← token_bucket_script-expired old now h r over) (token_bucket_script-visit now (some old))
