-- ===== src/Inventory.antt =====
-- apps/inventory: orders, returns, write-offs and the stock ledger.
pub mod Models
pub mod Stock
pub mod Ledger
pub mod Requests
pub mod Purchases
pub mod Sales
pub mod Returns
pub mod Damage
pub mod Tasks
pub mod Invoice
pub mod Transactions
