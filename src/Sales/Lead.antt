-- ===== src/Sales/Lead.antt =====
-- src/sales/lead-validation.ts: the texts of the lead form.
pub mod Defs
pub mod Clean
