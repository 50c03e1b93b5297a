-- ===== src/Tickets.antt =====
-- backend/ticket-service: the ticket lifecycle. `Domain` has the data, `Store` the repositories over
-- the database, `Usecase` and `Discussion` the rules, `Handler` the HTTP endpoints, `Routes` what stands before them.
pub mod Domain
pub mod Store
pub mod Usecase
pub mod Lifecycle
pub mod Machine
pub mod Assignment
pub mod Audit
pub mod Discussion
pub mod Concurrent
pub mod Handler
pub mod Access
pub mod Listing
pub mod Replies
pub mod Reports
pub mod Routes
pub mod Examples
pub mod OverlapExamples
pub mod ReportExamples
