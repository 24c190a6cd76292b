-- ===== src/Worker.antt =====
-- The Worker (apps/worker): its writes to the task table, the recovery of stale tasks, the execution
-- of a task and the consumption of the workflow topics.
pub mod Store
pub mod Recovery
pub mod Outputs
pub mod Results
pub mod Execution
pub mod Slots
pub mod Consumer
