-- ===== src/Alerts/Notification.antt =====
-- The delivery of notifications (src/alerts/alert-notification.service.ts).
pub mod Defs
pub mod Attempts
pub mod Settled
pub mod Closed
