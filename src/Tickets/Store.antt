-- ===== src/Tickets/Store.antt =====
-- internal/repository of the ticket service, over the four tables of its database.
mod Defs
mod Effects
pub mod Memory
unfoldable pub use Defs.*
pub use Effects.*
