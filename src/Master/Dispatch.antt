-- ===== src/Master/Dispatch.antt =====
-- `process_batch_tasks_async` of WorkflowService: the tasks of a batch in slices of a hundred.
pub mod Delivery
use vanguard_runner.Base.{
  ℕ, zero, suc, ◌+◌, ◌-◌, ◌/◌, String, ltb, List, map, length, slice, if◌then◌else◌,
}
use vanguard_runner.Model.{
  pending, batch_save_failed, kafka_dispatch_failed_for, kafka_dispatch_aborted, Task, Action, pure,
  throw, ◌>>=◌, ◌>>◌, try_except, runtime_error, message_of, for_each,
}
use vanguard_runner.Database.{save_task, commit, with_session}
use vanguard_runner.Redis.{set_task_status, status_write}
use vanguard_runner.Kafka.{SendResult, send_tasks_batch}
use vanguard_runner.Master.Compensation.{
  get_redis_client, get_kafka_producer, handle_batch_dispatch_failure,
}
use vanguard_runner.Master.RetryBatch.{failed_ids}
use vanguard_runner.Master.Submit.{new_task, task_info}

abbrev pub batch_size : ℕ
batch_size = 100

abbrev pub task_ids : List Task → List String
task_ids = map (λ t. t.task_id)

unfoldable pub save_or_raise : Task → Action Unit
save_or_raise t = do
  saved ← save_task (new_task t)
  if saved then pure tt else throw (runtime_error (batch_save_failed t.task_id))

unfoldable pub seed_status : Task → Action Unit
seed_status t = set_task_status t.task_id (status_write pending 0)

-- what follows the sends of a batch
unfoldable pub compensate : List Task → SendResult → Action Unit
compensate batch r =
    let undelivered = failed_ids (task_ids batch) r.details in
    if ltb 0 r.failed
    then handle_batch_dispatch_failure undelivered (kafka_dispatch_failed_for (length undelivered))
    else pure tt

-- the `try` block of one round
unfoldable pub dispatch_batch : List Task → Action Unit
unfolding compensate save_or_raise seed_status
dispatch_batch batch = do
  with_session (for_each batch save_or_raise >> commit)
  for_each batch seed_status
  r ← send_tasks_batch (map task_info batch)
  compensate batch r

unfoldable pub process_batch : List Task → Action Unit
process_batch batch =
    try_except (dispatch_batch batch)
      (λ e. handle_batch_dispatch_failure (task_ids batch) (kafka_dispatch_aborted (message_of e)))

-- the rounds that are left, from the index `i` on
unfoldable pub process_from : ℕ → ℕ → List Task → Action Unit
process_from zero i tasks = pure tt
process_from (suc rounds) i tasks = do
  process_batch (slice i (i + batch_size) tasks)
  process_from rounds (i + batch_size) tasks

-- `range(0, total_tasks, batch_size)` has `(total_tasks + batch_size - 1) // batch_size` members.
unfoldable pub process_batch_tasks_async : List Task → Action Unit
process_batch_tasks_async tasks = do
  get_kafka_producer
  get_redis_client
  process_from ((length tasks + batch_size - 1) / batch_size) 0 tasks
