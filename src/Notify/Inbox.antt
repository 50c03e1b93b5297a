-- ===== src/Notify/Inbox.antt =====
-- The stored notifications: notification.go, notification_repository.go, notification_usecase.go.
mod Defs
pub mod Memory
pub mod Backlog
unfoldable pub use Defs.*
