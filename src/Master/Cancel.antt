-- ===== src/Master/Cancel.antt =====
-- `cancel_task` and `cancel_batch_tasks` of WorkflowService.
pub mod Safety
pub mod Outcome
pub mod Batch
use vanguard_runner.Base.{
  ℕ, ◌+◌, String, Bool, true, false, Option, none, some, List, [], ◌∷◌, length, if◌then◌else◌,
}
use vanguard_runner.Model.{
  Status, cancelled, is_pending, Message, cancelled_before_execution, TaskExecution, World, at,
  Action, pure, gets, ◌>>=◌, ◌>>◌,
}
use vanguard_runner.Database.{
  StatusUpdate, update_to, update_task_status, query_task_by_id, query_tasks_by_parent_id, commit,
}
use vanguard_runner.Redis.{update_task_field, put_error_message, set_task_status, status_write}
use vanguard_runner.Master.Compensation.{get_redis_client}

-- `_mark_task_cancelled_in_redis`
unfoldable pub mark_task_cancelled_in_redis : String → Message → Action Unit
mark_task_cancelled_in_redis id message = do
  now ← gets (λ w. w.clock)
  set_task_status id (record (status_write cancelled 100) { finished_at = at now })
  update_task_field id (put_error_message message)

-- The dictionaries that `cancel_task` returns.
pub data CancelResult : Type 0 where
  not_found : CancelResult
  not_cancelled : Status → CancelResult
  was_cancelled : CancelResult

abbrev pub cancellation : ℕ → StatusUpdate
cancellation now = record (update_to cancelled) {
  progress = 100;
  finished_at = some now;
  error_message = cancelled_before_execution;
}

-- what follows the test of the status
unfoldable pub cancel_pending : String → Action CancelResult
cancel_pending id = do
  now ← gets (λ w. w.clock)
  done ← update_task_status id (cancellation now)
  commit
  get_redis_client
  mark_task_cancelled_in_redis id cancelled_before_execution
  pure was_cancelled

unfoldable pub cancel_found : String → Option TaskExecution → Action CancelResult
cancel_found id none = pure not_found
cancel_found id (some t) =
    if is_pending t.status then cancel_pending id else pure (not_cancelled t.status)

unfoldable pub cancel_task : String → Action CancelResult
unfolding cancel_found
cancel_task id = do found ← query_task_by_id id; cancel_found id found

-- The counts of `cancel_batch_tasks`; `none` is `"found": False`.
pub record BatchCount : Type 0 where
  pub done : ℕ
  pub skipped : ℕ
  pub total : ℕ

-- the body of the loop, for the counts so far
unfoldable pub cancel_one : ℕ → BatchCount → TaskExecution → Action BatchCount
cancel_one now c t =
    if is_pending t.status
    then (do
      done ← update_task_status t.task_id (cancellation now)
      mark_task_cancelled_in_redis t.task_id cancelled_before_execution
      pure (record c { done = c.done + 1 }))
    else pure (record c { skipped = c.skipped + 1 })

unfoldable pub cancel_each : ℕ → BatchCount → List TaskExecution → Action BatchCount
cancel_each now c [] = pure c
cancel_each now c (t ∷ ts) = do c' ← cancel_one now c t; cancel_each now c' ts

-- the loop over the tasks, and the one commit behind it
unfoldable pub cancel_and_commit : ℕ → List TaskExecution → Action (Option BatchCount)
cancel_and_commit now tasks = do
  c ← cancel_each now (record { done = 0; skipped = 0; total = length tasks }) tasks
  commit
  pure (some c)

unfoldable pub cancel_batch_found : List TaskExecution → Action (Option BatchCount)
cancel_batch_found [] = pure none
cancel_batch_found (t ∷ ts) = do
  get_redis_client
  now ← gets (λ w. w.clock)
  cancel_and_commit now (t ∷ ts)

unfoldable pub cancel_batch_tasks : String → Action (Option BatchCount)
unfolding cancel_batch_found
cancel_batch_tasks tracer_id = do
  tasks ← query_tasks_by_parent_id tracer_id
  cancel_batch_found tasks
