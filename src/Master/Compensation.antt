-- ===== src/Master/Compensation.antt =====
-- The compensation of WorkflowService for tasks that Kafka did not take
-- (apps/master/application/services/workflow_service.py), and the first uses of its clients.
pub mod Frame
use vanguard_runner.Base.{
  ℕ, String, Bool, true, false, Option, none, some, List, [], ◌∷◌, nat_eq, if◌then◌else◌,
}
use vanguard_runner.Model.{failed, Message, Action, pure, ◌>>=◌, ◌>>◌, external, for_each}
use vanguard_runner.Database.{update_to, update_task_status, commit, with_session}
use vanguard_runner.Redis.{update_task_field, put_error_message, set_task_status, status_write}

-- `get_redis_client` and `get_kafka_producer` connect at their first use, which may raise.
unfoldable pub get_redis_client : Action Unit
unfolding external
get_redis_client = external

unfoldable pub get_kafka_producer : Action Unit
unfolding external
get_kafka_producer = external

-- `int(value or default)`, where the value may be NULL
abbrev pub int_or : Option ℕ → ℕ → ℕ
int_or none d = d
int_or (some n) d = if nat_eq n 0 then d else n

-- one task of `_mark_tasks_dispatch_failed`
unfoldable pub mark_dispatch_failed : Message → String → Action Unit
mark_dispatch_failed message id = do
  done ← update_task_status id (record (update_to failed) { error_message = message })
  pure tt

-- `_mark_tasks_dispatch_failed`; of its tasks it reads the ids
unfoldable pub mark_tasks_dispatch_failed : List String → Message → Action Unit
mark_tasks_dispatch_failed ids message = do for_each ids (mark_dispatch_failed message); commit

-- one task of `_mark_failed_tasks_in_redis`
unfoldable pub mark_failed_in_redis : Message → String → Action Unit
mark_failed_in_redis message id = do
  set_task_status id (status_write failed 0)
  update_task_field id (put_error_message message)

-- `_mark_failed_tasks_in_redis`
unfoldable pub mark_failed_tasks_in_redis : List String → Message → Action Unit
mark_failed_tasks_in_redis ids message = for_each ids (mark_failed_in_redis message)

-- `_handle_batch_dispatch_failure`, in a session of its own
unfoldable pub handle_batch_dispatch_failure : List String → Message → Action Unit
handle_batch_dispatch_failure [] message = pure tt
handle_batch_dispatch_failure (id ∷ ids) message = do
  with_session (mark_tasks_dispatch_failed (id ∷ ids) message)
  mark_failed_tasks_in_redis (id ∷ ids) message
