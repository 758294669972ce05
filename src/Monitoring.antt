-- ===== src/Monitoring.antt =====
-- Monitoring rules (src/monitoring/monitoring.rules.ts and the types of monitoring.types.ts).
-- Times are milliseconds since the epoch; a difference compared with a bound, `a - b < c`, is
-- written `a < c + b`, and `Math.max(0, a - b)` is the subtraction of ℕ.
pub mod Rules
pub mod Severity
pub mod Notify
pub mod Jobs
mod Tests
