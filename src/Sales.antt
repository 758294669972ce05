-- ===== src/Sales.antt =====
-- The sales desk (src/sales/).
pub mod Phone
pub mod Lead
pub mod Lifecycle
pub mod Desk
mod Tests
