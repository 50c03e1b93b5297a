-- ===== src/Gateway/RedisLimiter.antt =====
-- redis_limiter.go: the script runs in Redis, one call at a time. Instants are milliseconds of Redis's
-- clock; tokens are counted in billionths as in `RateLimiter`.
use helpdesk_microservices.Base.{
  ℕ, ◌+◌, ◌-◌, ◌*◌, ◌/◌, ltb, Bool, true, false, Option, none, some, if◌then◌else◌,
}
use helpdesk_microservices.Gateway.RateLimiter.{one_token}

-- The hash of a key: its fields `tokens` and `ts`.
pub record Bucket : Type 0 where
  pub tokens : ℕ
  pub ts : ℕ

-- `TIME` is in seconds and microseconds.
unfoldable pub redis_now : (seconds microseconds : ℕ) → ℕ
redis_now seconds microseconds = seconds * 1000 + microseconds / 1000

-- The script: the answer and the hash that it stores.
unfoldable pub token_bucket_script : (rate burst now : ℕ) → Option Bucket → Bool × Bucket
token_bucket_script rate burst now none =
    (true, record { tokens = burst * one_token - one_token; ts = now })
token_bucket_script rate burst now (some b) =
    let refill = b.tokens + (now - b.ts) * 1000000 * rate in
    let tokens = if ltb (burst * one_token) refill then burst * one_token else refill in
    if ltb tokens one_token
    then (false, record { tokens = tokens; ts = now })
    else (true, record { tokens = tokens - one_token; ts = now })

-- `int64(math.Ceil(burst/rps*2*1000)) + 1000`
unfoldable pub ttl_ms : (rate burst : ℕ) → ℕ
ttl_ms rate burst = (burst * 2 * 1000 + (rate - 1)) / rate + 1000

-- The answer of Redis within the time limit, or none on any error, which lets the request through.
unfoldable pub redis_allow : Option Bool → Bool
redis_allow none = true
redis_allow (some allowed) = allowed
