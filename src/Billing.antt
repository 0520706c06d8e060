-- ===== src/Billing.antt =====
-- billing/: documents and subscription periods.
pub mod Models
pub mod Errors
pub mod Totals
pub mod Ledger
pub mod Documents
pub mod ActionState
pub mod Quotations
pub mod Invoices
pub mod Credits
pub mod Receipts
pub mod Coverage
pub mod Calendar
pub mod Subscriptions
mod Examples
mod Tests
