-- ===== src/Api.antt =====
-- The handlers together.
pub mod Orders
pub mod Requests
pub mod Ledger
pub mod Growth
pub mod AppendOnly
