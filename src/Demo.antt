-- ===== src/Demo.antt =====
-- apps/catalog/management/commands: the demo data.
pub mod Random
pub mod Builder
pub mod Seeds
pub mod Outgoing
pub mod Orders
pub mod Rules
pub mod Lines
pub mod Passes
pub mod Loop
pub mod Balance
pub mod Ledger
pub mod Fixed
pub mod Products
pub mod Seeded
