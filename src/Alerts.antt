-- ===== src/Alerts.antt =====
-- Price alerts (src/alerts/).
pub mod Types
pub mod Evaluator
pub mod Store
pub mod Service
pub mod Engine
pub mod Notification
pub mod Bonus
mod Tests
