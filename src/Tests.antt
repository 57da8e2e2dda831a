-- ===== src/Tests.antt =====
-- A concrete environment, runs of the model, and the theorems at concrete inputs.
mod Environment
mod Runs
mod Components
mod Windows
mod Delayed
mod Groups
