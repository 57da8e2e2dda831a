-- ===== src/System.antt =====
-- The process as a whole: runs of the operations of its parts.
pub mod Runs
pub mod Quiet
pub mod Keeping
pub mod Integrity
pub mod References
pub mod Finality
pub mod Ended
