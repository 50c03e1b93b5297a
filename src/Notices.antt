-- ===== src/Notices.antt =====
-- From a request to the ticket service to the inbox of the user whom its event is for.
mod Announced
mod Arrival
pub mod Examples
pub use Announced.*
unfoldable pub use Arrival.*
