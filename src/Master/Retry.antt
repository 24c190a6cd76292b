-- ===== src/Master/Retry.antt =====
-- `retry_task` of WorkflowService.
pub mod Safety
pub mod Outcome
pub mod Limit
use vanguard_runner.Base.{
  ℕ, ◌+◌, String, Bool, true, false, not, ◌==◌, leb, Option, none, some, if◌then◌else◌,
}
use vanguard_runner.Model.{
  Status, pending, failed, is_retryable, Message, blank, retry_dispatch_failed, TaskExecution,
  never, Action, pure, throw, ◌>>=◌, ◌>>◌, Exception, message_of, try_except,
}
use vanguard_runner.Database.{StatusUpdate, update_to, update_task_status, query_task_by_id, commit}
use vanguard_runner.Redis.{
  update_task_field, put_worker_id, put_started_at, put_finished_at, put_error_message,
  set_task_status, status_write,
}
use vanguard_runner.Kafka.{TaskInfo, send_task}
use vanguard_runner.Master.Compensation.{get_redis_client, get_kafka_producer, int_or}

-- `_reset_task_for_retry_in_redis`
unfoldable pub reset_task_for_retry_in_redis : String → Action Unit
reset_task_for_retry_in_redis id = do
  set_task_status id (status_write pending 0)
  update_task_field id (put_worker_id "")
  update_task_field id (put_started_at never)
  update_task_field id (put_finished_at never)
  update_task_field id (put_error_message blank)

-- The dictionaries that `retry_task` returns: `bad_status` and `exhausted` carry the status and stand
-- for the reasons "status" and "max_retries".
pub data RetryResult : Type 0 where
  not_found : RetryResult
  bad_status exhausted : Status → RetryResult
  was_retried : ℕ → RetryResult

-- the reset of the row, with its new count
abbrev pub reset_with : ℕ → StatusUpdate
reset_with n = record (update_to pending) { retry_count = some n }

-- the row after a failed dispatch
abbrev pub dispatch_failure : ℕ → Exception → StatusUpdate
dispatch_failure n e = record (update_to failed) {
  progress = 100;
  error_message = retry_dispatch_failed (message_of e);
  retry_count = some n;
}

-- the arguments of the retry's `send_task`
abbrev pub retry_info : TaskExecution → ℕ → TaskInfo
retry_info t n = record {
  task_id = t.task_id;
  parent_task_id = t.parent_task_id;
  task_type = t.task_type;
  priority = t.priority;
  payload = t.payload;
  created_by = t.created_by;
  retry_count = some n;
  max_retries = some (int_or t.max_retries 0);
  timeout_seconds = some (int_or t.timeout_seconds 300);
  use_workflow_topic = t.task_type == "workflow";
}

-- `except Exception as exc`, which raises again
unfoldable pub undo_retry : String → ℕ → Exception → Action Bool
undo_retry id n e = do
  done ← update_task_status id (dispatch_failure n e)
  commit
  set_task_status id (status_write failed 100)
  update_task_field id (put_error_message (retry_dispatch_failed (message_of e)))
  throw e

-- from the commit of the reset on
unfoldable pub redeliver : String → TaskExecution → ℕ → Action RetryResult
unfolding undo_retry
redeliver id t n = do
  get_redis_client
  reset_task_for_retry_in_redis id
  get_kafka_producer
  sent ← try_except (send_task (retry_info t n)) (undo_retry id n)
  pure (was_retried n)

-- what follows the two tests
unfoldable pub requeue : String → TaskExecution → ℕ → Action RetryResult
requeue id t n = do done ← update_task_status id (reset_with n); commit; redeliver id t n

unfoldable pub retry_found : String → Option TaskExecution → Action RetryResult
retry_found id none = pure not_found
retry_found id (some t) =
    if not (is_retryable t.status)
    then pure (bad_status t.status)
    else if leb (int_or t.max_retries 0) (int_or t.retry_count 0)
    then pure (exhausted t.status)
    else requeue id t (int_or t.retry_count 0 + 1)

unfoldable pub retry_task : String → Action RetryResult
unfolding retry_found
retry_task id = do found ← query_task_by_id id; retry_found id found
