-- ===== src/Accounts.antt =====
-- apps/accounts: users, roles and the permission classes.
pub mod Models
pub mod Permissions
pub mod Users
pub mod Routes
pub mod Escalation
pub mod Restore
