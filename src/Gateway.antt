-- ===== src/Gateway.antt =====
-- backend/api-gateway/cmd: `Middleware` and `Routes` are what a request passes through, `Breaker` the
-- circuit breaker around an upstream, `RateLimiter` and `RedisLimiter` the token buckets. `Connection`,
-- `Protection`, `Identity`, `Caller`, `Buckets` and `Forgetting` have their theorems, `Examples` the runs.
pub mod Middleware
pub mod Routes
pub mod Breaker
pub mod RateLimiter
pub mod Buckets
pub mod RedisLimiter
pub mod Forgetting
pub mod Connection
pub mod Protection
pub mod Identity
pub mod Caller
pub mod Examples
