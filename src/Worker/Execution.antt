-- ===== src/Worker/Execution.antt =====
-- `execute_task` and `execute_task_async` (apps/worker/runtime/main.py). The engine that runs a
-- workflow, and the callback that reports it, are arguments.
pub mod Running
pub mod Settled
use vanguard_runner.Base.{
  ℕ, String, Bool, true, false, not, ◌==◌, ltb, Option, none, some, List, [], ◌∷◌, if◌then◌else◌,
}
use vanguard_runner.Model.{
  Status, running, success, failed, Message, text, blank, is_set, unsupported_task_type, Json,
  truthy, Payload, World, at, Action, pure, gets, ◌>>=◌, ◌>>◌, message_of, try_except,
}
use vanguard_runner.Redis.{
  update_task_field, put_status, put_progress, put_worker_id, put_started_at, put_finished_at,
  put_error_message, put_result,
}
use vanguard_runner.Worker.Store.{WorkerUpdate, worker_update, update_task_status_in_db}

-- The decoded message; a missing `task_id` is "unknown", and a message with no `task_type` is skipped
-- by the consumer before it gets here.
pub record TaskData : Type 0 where
  pub task_id : String
  pub task_type : String
  pub parent_task_id : Option String
  pub payload : Payload

-- The dictionary that a workflow's run returns; a missing text is blank, and `total_steps` is
-- `result.totalSteps`.
pub record RunResult : Type 0 where
  pub success : Bool
  pub result : Json
  pub total_steps : ℕ
  pub error : Message
  pub message : Message

-- an error's result of `execute_task_async`
abbrev pub error_result : Message → RunResult
error_result m = record {
  success = false;
  result = Json.null;
  total_steps = 0;
  error = m;
  message = blank;
}

-- `a or b`
abbrev pub or_message : Message → Message → Message
or_message a b = if is_set a then a else b

-- the fields that every ending of a run writes to the row
abbrev pub finished_update : Status → String → ℕ → Message → WorkerUpdate
finished_update s worker now m = record (worker_update s) {
  worker_id = some worker;
  progress = some 100;
  finished_at = some now;
  error_message = some m;
}

-- the three writes to Redis and the one to the row of a run that ends in an error
unfoldable pub fail_task : String → String → Message → Action Unit
fail_task worker id m = do
  now ← gets (λ w. w.clock)
  update_task_field id (put_status failed)
  update_task_field id (put_error_message m)
  update_task_field id (put_finished_at (at now))
  update_task_status_in_db id (finished_update failed worker now m)

-- `if result.get("result")`
unfoldable pub store_result : String → Json → Bool → Action Unit
store_result id j true = update_task_field id (put_result j)
store_result id j false = pure tt

-- `should_write_redis`: the status and the end, then the result, each in a `try` of its own
unfoldable pub write_success : String → ℕ → Json → Action Unit
unfolding store_result
write_success id now result = do
  try_except
      (do
        update_task_field id (put_status success)
        update_task_field id (put_finished_at (at now)))
      (λ _. pure tt)
  try_except (store_result id result (truthy result)) (λ _. pure tt)

abbrev pub skip_above : ℕ
skip_above = 50

-- the writes to Redis of a success, by whether the workflow has too many steps for them
unfoldable pub store_success : String → ℕ → Json → Bool → Action Unit
unfolding write_success
store_success id now result true = pure tt
store_success id now result false = write_success id now result

unfoldable pub finish_success : String → String → RunResult → Action Unit
unfolding store_success
finish_success worker id r = do
  now ← gets (λ w. w.clock)
  store_success id now r.result (ltb skip_above r.total_steps)
  update_task_status_in_db id (finished_update success worker now blank)

-- the message of a result without success
abbrev pub error_of : RunResult → Message
error_of r = or_message r.error (or_message r.message (text "Unknown error"))

-- `if result.get("success")`
unfoldable pub finish_result : String → String → RunResult → Bool → Action Unit
unfolding fail_task finish_success
finish_result worker id r true = finish_success worker id r
finish_result worker id r false = fail_task worker id (error_of r)

-- what follows the call of `execute_task_async`, by its result
unfoldable pub finish_task : String → String → Option RunResult → Action Unit
unfolding fail_task finish_result
finish_task worker id none = do
  update_task_field id (put_progress 100)
  fail_task worker id (text "execute_task_async returned None")
finish_task worker id (some r) = do
  update_task_field id (put_progress 100)
  finish_result worker id r r.success

-- the writes before the run
unfoldable pub start_task : String → String → Action Unit
start_task worker id = do
  now ← gets (λ w. w.clock)
  update_task_field id (put_status running)
  update_task_field id (put_progress 0)
  update_task_field id (put_worker_id worker)
  update_task_field id (put_started_at (at now))
  update_task_status_in_db id (record (worker_update running) {
    worker_id = some worker;
    progress = some 0;
    started_at = some now;
  })

unfoldable pub reject_task : String → Message → Action Unit
reject_task id m = do
  update_task_field id (put_status failed)
  update_task_field id (put_error_message m)
  update_task_status_in_db id (record (worker_update failed) { error_message = some m })

-- `execute` is WorkflowExecutor.execute_workflow, `enabled` is WorkflowCallbackService.is_enabled(),
-- and `report` is send_single_workflow_callback for a result.
module _ (execute : TaskData → Action (Option RunResult)) (enabled : Bool)
    (report : TaskData → RunResult → Action Unit) where
  -- what follows the engine's call
  unfoldable pub report_result : TaskData → Option RunResult → Action (Option RunResult)
  report_result d none = pure (some (error_result (text "_execute_workflow returned None")))
  report_result d (some r) = do
    (if enabled then try_except (report d r) (λ _. pure tt) else pure tt)
    pure (some r)

  unfoldable pub execute_task_async : TaskData → Action (Option RunResult)
  unfolding report_result
  execute_task_async d = try_except (execute d >>= report_result d) (λ e. do
    try_except (if enabled then report d (error_result (message_of e)) else pure tt) (λ _. pure tt)
    pure (some (error_result (message_of e))))

  unfoldable pub execute_task : String → TaskData → Action Unit
  unfolding start_task finish_task reject_task fail_task execute_task_async
  execute_task worker d =
      if d.task_type == "workflow"
      then try_except
          (do start_task worker d.task_id; r ← execute_task_async d; finish_task worker d.task_id r)
          (λ e. fail_task worker d.task_id (message_of e))
      else reject_task d.task_id (unsupported_task_type d.task_type)
