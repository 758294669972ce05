-- ===== src/Market/Normalizer.antt =====
-- src/market/price-normalizer.service.ts: raw entries of the API become prices in canonical units.
pub mod Defs
pub mod Laws
pub mod Entries
