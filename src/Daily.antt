-- ===== src/Daily.antt =====
-- The resumable daily workflow of src/tools/run_update_daily.py, one child for each part of it.
pub mod Types
pub mod Dates
pub mod State
pub mod Run
pub mod Dependencies
pub mod Command
pub mod Config
