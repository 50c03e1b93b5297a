-- ===== src/Config.antt =====
-- pkg/config of the four services: the environment, read once at the start. `Parse` has the helpers, of which
-- each service has a copy, `Services` the four `Load`s, `Started` what holds of a service that starts.
pub mod Parse
pub mod Services
pub mod Started
pub mod Examples
