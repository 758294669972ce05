-- ===== src/Market/State.antt =====
-- The accepted price state of src/market/market-state.service.ts and its file
-- (src/market/market-state.store.ts).
pub mod Defs
pub mod Days
pub mod Window
pub mod Bounds
pub mod Stored
pub mod Restart
pub mod Reached
