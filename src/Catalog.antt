-- ===== src/Catalog.antt =====
-- apps/catalog: categories, suppliers and products.
pub mod Models
pub mod Products
pub mod Status
pub mod Editing
pub mod StockEdits
