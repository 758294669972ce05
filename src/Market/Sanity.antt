-- ===== src/Market/Sanity.antt =====
-- src/market/sanity-checker.service.ts: is a normalized price plausible? The texts of `detail` and
-- the log lines are left out.
pub mod Defs
pub mod Laws
