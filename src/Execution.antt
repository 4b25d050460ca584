-- ===== src/Execution.antt =====
-- app/execution: the snapshots of what a task has executed.
pub mod Snapshots
