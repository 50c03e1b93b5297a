-- ===== src/Auth.antt =====
-- backend/auth-service: accounts and sessions. `Domain` has the data, `Store` the interface of the
-- database and of bcrypt, `Sessions` the refresh-token repository, `Accounts` the use case, `Tokens` and
-- `Handler` the endpoints, `Routes` what stands before them. `Rotation`, `Cap`, `Refresh`, `Passwords`
-- and `Bearer` have the theorems, `Memory` and `Examples` an instance and the runs.
pub mod Domain
pub mod Store
pub mod Sessions
pub mod Accounts
pub mod Tokens
pub mod Handler
pub mod Rotation
pub mod Cap
pub mod Refresh
pub mod Passwords
pub mod Routes
pub mod Bearer
pub mod Memory
pub mod Examples
