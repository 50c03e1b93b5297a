-- ===== src/Amqp.antt =====
-- The calls of github.com/rabbitmq/amqp091-go, which both ticket-service and notification-service make.
-- The library and the broker are not in the repository: what the broker answers to a call is an argument,
-- a function of the call and of the calls so far. `Balance` counts what is opened and closed.
mod Defs
pub mod Balance
pub mod Declared
unfoldable pub use Defs.*
