-- ===== src/Baostock.antt =====
-- The Baostock daily update.
pub mod Adjusted
pub mod Targets
pub mod LeftOut
pub mod Dispatch
pub mod Worker
