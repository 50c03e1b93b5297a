-- ===== src/Migrations.antt =====
-- internal/migrations/migrate.go, which is the same in the three services with a database.
mod Defs
mod Adoption
pub mod Examples
unfoldable pub use Defs.*
pub use Adoption.*
