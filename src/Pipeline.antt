-- ===== src/Pipeline.antt =====
-- src/pipeline: the metadata rows of an update, their batches, and the checkpoints that a resumed
-- update goes by.
pub mod Rows
pub mod Dedupe
pub mod KeepLast
pub mod Batch
pub mod Checkpoints
pub mod Frames
