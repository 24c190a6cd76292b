-- ===== src/Master/RetryBatch.antt =====
-- `retry_batch_tasks` of WorkflowService.
pub mod Sent
pub mod Entries
pub mod Counts
use vanguard_runner.Base.{
  ℕ, ◌+◌, ◌-◌, String, Bool, not, ◌&&◌, ◌==◌, ltb, Option, none, some, List, [], ◌∷◌, map, length,
  select, any, if◌then◌else◌,
}
use vanguard_runner.Model.{
  is_retryable, Message, retry_dispatch_failed_for, TaskExecution, Action, pure, ◌>>=◌, ◌>>◌,
}
use vanguard_runner.Database.{update_task_status, query_tasks_by_parent_id, commit}
use vanguard_runner.Kafka.{TaskInfo, Detail, SendResult, send_tasks_batch}
use vanguard_runner.Master.Cancel.{BatchCount}
use vanguard_runner.Master.Retry.{reset_with, reset_task_for_retry_in_redis}
use vanguard_runner.Master.Compensation.{
  get_redis_client, get_kafka_producer, int_or, mark_tasks_dispatch_failed,
  mark_failed_tasks_in_redis,
}

-- the test of the first loop
unfoldable pub may_retry : TaskExecution → Bool
may_retry t = is_retryable t.status && ltb (int_or t.retry_count 0) (int_or t.max_retries 0)

-- one entry of `batch_tasks`
abbrev pub batch_info : TaskExecution → TaskInfo
batch_info t = record {
  task_id = t.task_id;
  parent_task_id = t.parent_task_id;
  task_type = t.task_type;
  priority = t.priority;
  payload = t.payload;
  created_by = t.created_by;
  retry_count = some (int_or t.retry_count 0 + 1);
  max_retries = some (int_or t.max_retries 3);
  timeout_seconds = some (int_or t.timeout_seconds 300);
  use_workflow_topic = t.task_type == "workflow";
}

-- the body of the second loop
unfoldable pub reset_one : TaskExecution → Action TaskInfo
reset_one t = do
  done ← update_task_status t.task_id (reset_with (int_or t.retry_count 0 + 1))
  reset_task_for_retry_in_redis t.task_id
  pure (batch_info t)

unfoldable pub reset_each : List TaskExecution → Action (List TaskInfo)
reset_each [] = pure []
reset_each (t ∷ ts) = do info ← reset_one t; infos ← reset_each ts; pure (info ∷ infos)

-- The ids of the details that failed and name a task of the batch, in the order of the details.
unfoldable pub failed_ids : List String → List Detail → List String
failed_ids ids details =
    map (λ d. d.task_id) (select (λ d. not d.delivered && any (λ id. id == d.task_id) ids) details)

-- `if failed_tasks:`
unfoldable pub mark_undelivered : List String → Message → Action Unit
mark_undelivered [] message = pure tt
mark_undelivered (id ∷ ids) message = do
  mark_tasks_dispatch_failed (id ∷ ids) message
  mark_failed_tasks_in_redis (id ∷ ids) message

-- `if send_result.get("failed", 0) > 0:`
unfoldable pub compensate_retry : List TaskExecution → SendResult → Action Unit
unfolding failed_ids mark_undelivered
compensate_retry retryable r =
    let undelivered = failed_ids (map (λ t. t.task_id) retryable) r.details in
    if ltb 0 r.failed
    then mark_undelivered undelivered (retry_dispatch_failed_for (length undelivered))
    else pure tt

unfoldable pub requeue_all : ℕ → List TaskExecution → Action BatchCount
unfolding compensate_retry
requeue_all total retryable = do
  get_redis_client
  infos ← reset_each retryable
  commit
  get_kafka_producer
  r ← send_tasks_batch infos
  compensate_retry retryable r
  pure (record { done = r.success; skipped = total - length retryable + r.failed; total = total })

unfoldable pub retry_selected : ℕ → List TaskExecution → Action BatchCount
retry_selected total [] = pure (record { done = 0; skipped = total; total = total })
retry_selected total (t ∷ ts) = requeue_all total (t ∷ ts)

unfoldable pub retry_batch_found : List TaskExecution → Action (Option BatchCount)
unfolding may_retry retry_selected
retry_batch_found [] = pure none
retry_batch_found (t ∷ ts) = do
  c ← retry_selected (length (t ∷ ts)) (select may_retry (t ∷ ts))
  pure (some c)

unfoldable pub retry_batch_tasks : String → Action (Option BatchCount)
unfolding retry_batch_found
retry_batch_tasks tracer_id = do tasks ← query_tasks_by_parent_id tracer_id; retry_batch_found tasks
