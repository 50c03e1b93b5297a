-- ===== src/Notify/Consumer.antt =====
-- The RabbitMQ consumer of the notification service. `Defs` is the code of consumer.go, `Settled` what
-- becomes of the deliveries, `Session` what the two consumers open and declare.
mod Defs
pub mod Settled
pub mod Session
pub mod Agreement
unfoldable pub use Defs.*
