-- ===== src/Master.antt =====
-- The Master: TaskSplitter (apps/master/application/use_cases/task_splitter.py) and WorkflowService
-- (apps/master/application/services/workflow_service.py).
pub mod Splitter
pub mod Compensation
pub mod Cancel
pub mod Retry
pub mod RetryBatch
pub mod Submit
pub mod Dispatch
