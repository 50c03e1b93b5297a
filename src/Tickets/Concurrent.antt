-- ===== src/Tickets/Concurrent.antt =====
-- Requests of the ticket service that overlap: each use case reads a ticket and decides, and its
-- transaction comes later, with whatever was written in between.
mod Defs
mod Whole
mod Consistency
unfoldable pub use Defs.*
pub use Whole.*
pub use Consistency.*
