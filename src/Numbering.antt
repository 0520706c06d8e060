-- ===== src/Numbering.antt =====
-- The numbers of documents and purchases: billing/numbering.py and inventory/numbering.py.
pub mod Search
pub mod Purchases
pub mod Documents
mod Tests
