-- ===== src/Worker.antt =====
-- internal/worker: the dispatcher that works on queue messages, the delayed set and the scheduler.
pub mod Member
pub mod Parsing
pub mod Dispatcher
pub mod Finality
pub mod Waiting
pub mod Footprint
pub mod Frame
pub mod Isolation
pub mod Answered
pub mod Settling
pub mod Attempting
pub mod Outcome
pub mod Retrying
pub mod Requests
pub mod Scheduler
pub mod Delayed
pub mod Resuming
