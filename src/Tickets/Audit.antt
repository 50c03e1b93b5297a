-- ===== src/Tickets/Audit.antt =====
-- The audit trail of the ticket service: what `Trail` states, each request keeps (`Requests`).
mod Trail
mod Requests
mod History
pub use Trail.*
pub use History.*
pub use Requests.*
