-- ===== src/Alerts/Service.antt =====
-- src/alerts/alert.service.ts: the rules for creating, changing, triggering and deleting alerts.
-- `Input` validates, `Mutations`, `Create` and `Edit` hold the operations of a user, `Deliveries`
-- those of the engine; the other children are about them.
pub mod Input
pub mod Mutations
pub mod Create
pub mod Edit
pub mod Deliveries
pub mod Steps
pub mod Consistency
mod Cases
pub mod Creation
pub mod Wanted
pub mod Targets
pub mod Granted
mod Firing
pub mod Runs
pub mod Guarantees
pub mod Capacity
pub mod Operations
