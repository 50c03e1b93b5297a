-- ===== src/Notify.antt =====
-- backend/notification-service: the WebSocket hub, which pushes events to the clients that are connected.
-- `Hub` is the code of ws.go and the dispatch of consumer.go, `Delivery` has the theorems.
mod Queues
pub mod Inbox
pub mod ClientIp
pub mod Spoofing
pub mod Endpoints
pub mod Access
pub mod Hub
pub mod Delivery
pub mod Consumer
pub mod Examples
pub mod InboxExamples
