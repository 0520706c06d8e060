-- ===== src/WorkReports.antt =====
-- work_reports/: technicians' reports of work and their review.
pub mod PaymentRows
pub mod Models
pub mod ServiceDays
pub mod Reports
pub mod PaymentChecks
pub mod Payments
pub mod Batches
pub mod BatchServices
pub mod Settlement
mod Tests
