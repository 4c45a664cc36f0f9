-- ===== src/Notifications.antt =====
-- apps/notifications: the notification rows and the services that create them.
pub mod Models
pub mod Services
pub mod Frame
pub mod Views
