-- ===== src/Publisher.antt =====
-- backend/ticket-service/internal/delivery/messaging: the RabbitMQ publisher. `Dial` is how a session is
-- opened, `State` what happens under the publisher's lock, `Steps` how goroutines that publish interleave;
-- the other children have the theorems.
pub mod Queues
pub mod Dial
pub mod State
pub mod Steps
pub mod Opening
pub mod Flight
pub mod Sessions
pub mod Progress
pub mod Examples
