-- ===== src/Db.antt =====
-- What the repositories ask of the database, one handle to each table, reached through GORM.
-- PostgreSQL and GORM are not in the repository: a table is a record of operations, and its laws
-- state what GORM documents of each call. Any call may fail. `Db/Memory.antt` is an instance.
mod Defs
pub mod Sorting
pub mod Memory
pub mod Rows
pub mod Selection
pub mod Counts
pub use Defs.*
