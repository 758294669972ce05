-- ===== src/Campaigns.antt =====
-- Campaign attribution (src/campaigns/).
pub mod Attribution
mod Tests
