-- ===== src/Tickets/Handler.antt =====
-- internal/delivery/http of the ticket service: the endpoints.
mod Requests
mod Endpoints
mod Uploads
unfoldable pub use Requests.*
unfoldable pub use Endpoints.*
unfoldable pub use Uploads.*
