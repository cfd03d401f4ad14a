-- ===== src/Datetime.antt =====
-- Date and time.
pub mod Calendar
pub mod Clock
pub mod Iso
pub mod Zone
pub mod Windows
mod Tests
