-- ===== src/Jwt.antt =====
-- golang-jwt, of which the services use a parser, which checks the signature and the expiry, and a
-- signer. The library is an argument of what uses it; `Jwt/Sample.antt` is an instance.
mod Defs
pub mod Sample
pub use Defs.*
