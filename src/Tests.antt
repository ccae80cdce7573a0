-- ===== src/Tests.antt =====
-- The tests and the witnesses, by part of the program.
pub mod Calendar
pub mod Baostock
pub mod Workflow
pub mod Run
pub mod State
pub mod Dates
pub mod Frames
pub mod Pending
pub mod Config
pub mod Lock
pub mod Pipeline
pub mod Dispatch
pub mod Adjusted
pub mod Worker
pub mod Derived
pub mod Storage
pub mod Percentile
