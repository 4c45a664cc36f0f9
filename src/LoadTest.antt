-- ===== src/LoadTest.antt =====
-- apps/catalog/management/commands: the commands for the load test.
pub mod Reset
pub mod Mismatch
