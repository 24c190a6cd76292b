-- ===== src/Routes.antt =====
-- The routes of the Master that report on tasks and batches (apps/master/api/routes/task_router.py and
-- apps/master/api/routes/workflow_router.py).
pub mod Replies
pub mod Tallies
pub mod Tasks
pub mod Stream
