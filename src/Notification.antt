-- ===== src/Notification.antt =====
-- apps/notification-service: what one consumed event becomes.
pub mod Dispatcher
pub mod Statuses
pub mod Redelivery
pub mod Again
pub mod Tests
