-- ===== src/Core.antt =====
-- apps/core: the cache of responses and the guard of the locking switch.
pub mod Cache
pub mod Invalidation
pub mod Race
pub mod Checks
