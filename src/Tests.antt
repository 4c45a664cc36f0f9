-- ===== src/Tests.antt =====
-- A small shop on tables of lists, runs of the handlers, and the theorems at that shop.
pub mod Shop
pub mod Witnesses
pub mod Replays
pub mod Totals
pub mod Inbox
pub mod Caching
pub mod Overlaps
pub mod Demo
pub mod Edits
pub mod Days
pub mod Resets
