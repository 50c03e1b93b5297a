-- ===== src/Tickets/Reports.antt =====
-- The reports of the ticket service. `Defs` has report_repository.go, report_usecase.go and
-- report_handler.go, `Totals` the grouped reports, `Trend` the two that count.
mod Defs
pub mod Totals
pub mod Agents
pub mod Trend
unfoldable pub use Defs.*
