-- ===== src/Market/Engine.antt =====
-- One cycle of the market pipeline (src/market/market-engine.service.ts).
pub mod Types
pub mod Defs
pub mod Verdicts
pub mod Commits
pub mod Answers
pub mod Reasons
pub mod Cycle
pub mod Guarantees
