-- ===== src/Campaigns/Attribution.antt =====
-- src/campaigns/attribution.ts: which campaign a conversion is credited to.
pub mod Defs
pub mod Order
pub mod Credit
pub mod Outcome
