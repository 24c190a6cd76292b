-- ===== src/Callback.antt =====
-- The callback of the Worker (apps/worker/infrastructure/callback/callback_service.py): the retries of
-- one request, and the batches of a workflow's result.
pub mod Delivery
pub mod Batches
