-- ===== src/Gateway/RateLimiter.antt =====
-- The token bucket of middleware.go (RateLimiter). Instants are nanoseconds and tokens are counted in
-- billionths, so that `elapsed * rate` is exact; float64 rounding is outside the model. `rate` and
-- `burst` are whole numbers, as the defaults of the configuration are, and `burst` is at least 1.
use helpdesk_microservices.Base.{
  ℕ, ◌+◌, ◌-◌, ◌*◌, ◌^◌, ltb, ◌=s=◌, Bool, true, false, Option, none, some, String, if◌then◌else◌,
}

abbrev pub one_token : ℕ
one_token = 10 ^ 9

pub record Visitor : Type 0 where
  pub tokens : ℕ
  pub last_seen : ℕ

-- The map of the visitors, by key.
abbrev pub Visitors : Type 0
Visitors = String → Option Visitor

unfoldable pub insert : String → Visitor → Visitors → Visitors
insert key v vs k = if k =s= key then some v else vs k

module _ (rate burst : ℕ) where
  abbrev pub full : ℕ
  full = burst * one_token

  -- The bucket after the time since it was last seen, at most full.
  unfoldable pub refilled : Visitor → ℕ → ℕ
  refilled v now =
      let tokens = v.tokens + (now - v.last_seen) * rate in if ltb full tokens then full else tokens

  -- A visit to a bucket: the answer and the bucket afterwards.
  unfoldable pub visit : Option Visitor → ℕ → Bool × Visitor
  unfolding refilled
  visit none now = (true, record { tokens = full - one_token; last_seen = now })
  visit (some v) now =
      let tokens = refilled v now in
      if ltb tokens one_token
      then (false, record { tokens = tokens; last_seen = now })
      else (true, record { tokens = tokens - one_token; last_seen = now })

  unfoldable pub allow : Visitors → ℕ → (key : String) → Bool × Visitors
  unfolding insert visit
  allow vs now key = let (allowed, v) = visit (vs key) now in (allowed, insert key v vs)

-- The visitors that were not seen since `cutoff` are forgotten.
unfoldable pub evict : ℕ → Visitors → Visitors
evict cutoff vs k = elim (vs k) [
  | none ↦ none
  | some v ↦ if ltb v.last_seen cutoff then none else some v
]

-- Three minutes, in nanoseconds.
abbrev pub idle_time : ℕ
idle_time = 180 * one_token
