-- ===== src/Sales/Phone.antt =====
-- src/sales/phone.ts. A text is the list of its code points.
pub mod Defs
pub mod Digits
pub mod Accepted
mod Grouped
pub mod Canonical
