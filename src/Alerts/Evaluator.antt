-- ===== src/Alerts/Evaluator.antt =====
-- src/alerts/alert-evaluator.ts: does an alert fire on one market observation? `null` is `none`,
-- and `a >= b` on numbers is `le b a`.
pub mod Defs
pub mod Condition
