-- ===== src/Concurrency.antt =====
-- Requests that overlap: each is a sequence of steps on the database, and any order of the steps of
-- different requests may happen.
pub mod RowLock
pub mod Stock
pub mod Safety
pub mod Races
pub mod Deployed
pub mod Locks
pub mod Orderly
pub mod Deadlock
pub mod Progress
