-- ===== src/Market.antt =====
-- The market pipeline (src/market/).
pub mod Types
pub mod Change
pub mod Sanity
pub mod Amount
pub mod Normalizer
pub mod State
pub mod Engine
mod Tests
