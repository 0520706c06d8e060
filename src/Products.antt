-- ===== src/Products.antt =====
-- The numbering of products: products/sku.py and products/creation.py.
pub mod Sku
pub mod Creation
mod Tests
