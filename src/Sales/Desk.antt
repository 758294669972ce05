-- ===== src/Sales/Desk.antt =====
-- The sales desk: the durable leads of src/sales/sales.service.ts and src/sales/sales.store.ts.
pub mod Types
pub mod Reference
pub mod Store
pub mod Input
pub mod Create
pub mod Updates
pub mod Statuses
pub mod Sale
pub mod Repair
pub mod Kept
pub mod Advance
pub mod Sound
pub mod Follow
pub mod Steps
pub mod Writes
pub mod Records
pub mod Runs
pub mod Once
pub mod Moves
pub mod Answers
pub mod Outcomes
pub mod Active
