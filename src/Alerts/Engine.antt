-- ===== src/Alerts/Engine.antt =====
-- src/alerts/alert-engine.service.ts: what happens to the alerts of a symbol when a price was
-- committed.
pub mod Defs
pub mod Dispatch
pub mod Once
pub mod Cycle
