-- ===== src/Worker/Slots.antt =====
-- `execute_task_with_semaphore` (apps/worker/runtime/main.py): the claim, the slot that a task takes
-- in its worker's hash, the deadline, and the offset that is committed at the end.
pub mod Claims
pub mod Balance
use vanguard_runner.Base.{
  ℕ, ◌+◌, ◌-◌, String, Bool, true, false, ◌==◌, nat_eq, Option, none, some, List, [], ◌∷◌,
  if◌then◌else◌,
}
use vanguard_runner.Model.{
  Status, timeout, failed, is_claimed, Message, task_timeout_after, TaskHash, WorkerHash, World, at,
  Offset, Action, pure, gets, modify, ◌>>=◌, ◌>>◌, Exception, message_of, try_except, external,
}
use vanguard_runner.Redis.{
  update_task_field, put_status, put_progress, put_finished_at, put_error_message,
}
use vanguard_runner.Worker.Store.{
  WorkerUpdate, worker_update, given, update_task_status_in_db, commit_offset,
}
use vanguard_runner.Worker.Execution.{TaskData, finished_update}

-- Where a message stands in its partition.
pub record Received : Type 0 where
  pub topic : String
  pub partition : ℕ
  pub offset : ℕ

abbrev pub next_offset : Received → Offset
next_offset m = record { topic = m.topic; partition = m.partition; position = m.offset + 1 }

-- `if msg and topic_partition: try: commit`
unfoldable pub commit_message : Option Received → Action Unit
commit_message none = pure tt
commit_message (some m) = try_except (commit_offset (next_offset m)) (λ _. pure tt)

abbrev pub status_of : Option TaskHash → Option Status
status_of none = none
status_of (some h) = h.status

-- `hget(f"task:{task_id}", "status")`
unfoldable pub read_status : String → Action (Option Status)
unfolding external
read_status id = do external; gets (λ w. status_of (w.redis id))

abbrev pub is_claimed_already : Option Status → Bool
is_claimed_already none = false
is_claimed_already (some s) = is_claimed s

abbrev pub no_worker : WorkerHash
no_worker = record { status = none; current_tasks = none }

-- a write to the hash of a worker, which creates it where it is missing
abbrev pub at_worker :
    String → (WorkerHash → WorkerHash) → List (String × WorkerHash) → List (String × WorkerHash)
at_worker id f [] = (id, f no_worker) ∷ []
at_worker id f ((k, h) ∷ ws) = if k == id then (k, f h) ∷ ws else (k, h) ∷ at_worker id f ws

abbrev pub tasks_of : String → List (String × WorkerHash) → Option ℕ
tasks_of id [] = none
tasks_of id ((k, h) ∷ ws) = if k == id then h.current_tasks else tasks_of id ws

-- `hset(worker_key, field, value)`
unfoldable pub write_worker : String → (WorkerHash → WorkerHash) → Action Unit
unfolding external
write_worker id f = do external; modify (λ w. record w { workers = at_worker id f w.workers })

-- `hget(worker_key, "current_tasks")`, with what stands in for a missing field
unfoldable pub read_current_tasks : String → ℕ → Action ℕ
unfolding external
read_current_tasks id default = do external; gets (λ w. given (tasks_of id w.workers) default)

abbrev pub put_worker_status : String → WorkerHash → WorkerHash
put_worker_status s h = record h { status = some s }

abbrev pub put_current_tasks : ℕ → WorkerHash → WorkerHash
put_current_tasks n h = record h { current_tasks = some n }

unfoldable pub take_slot : String → Action Unit
unfolding read_current_tasks write_worker
take_slot worker = do
  n ← read_current_tasks worker 0
  write_worker worker (put_worker_status "busy")
  write_worker worker (put_current_tasks (n + 1))

unfoldable pub free_slot : String → Action Unit
unfolding read_current_tasks write_worker
free_slot worker = do
  n ← read_current_tasks worker 1
  write_worker worker (put_worker_status (if nat_eq (n - 1) 0 then "idle" else "busy"))
  write_worker worker (put_current_tasks (n - 1))

-- `except asyncio.TimeoutError`, for a deadline in seconds
unfoldable pub time_out_task : ℕ → String → String → Option Received → Action Unit
unfolding commit_message
time_out_task seconds worker id msg = do
  now ← gets (λ w. w.clock)
  update_task_field id (put_status timeout)
  update_task_field id (put_progress 100)
  update_task_field id (put_finished_at (at now))
  update_task_field id (put_error_message (task_timeout_after seconds))
  update_task_status_in_db id (finished_update timeout worker now (task_timeout_after seconds))
  commit_message msg

-- `except Exception as e` of the whole body, with its `finally`
unfoldable pub fail_slot : String → String → Option Received → Message → Action Unit
unfolding commit_message
fail_slot worker id msg m = do
  try_except
      (do
        update_task_field id (put_status failed)
        update_task_field id (put_error_message m)
        update_task_status_in_db id
            (record (worker_update failed) { worker_id = some worker; error_message = some m }))
      (λ _. pure tt)
  commit_message msg

-- `run` is `execute_task`. `deadline` is `none` where it ends within the timeout of `seconds`, and
-- otherwise what it had done to the world when `asyncio.wait_for` cancelled it.
module _ (seconds : ℕ) (run : String → TaskData → Action Unit)
    (deadline : TaskData → Option (World → World)) where
  unfoldable pub run_until :
      String → TaskData → Option Received → Option (World → World) → Action Unit
  unfolding time_out_task commit_message
  run_until worker d msg none = do run worker d; commit_message msg
  run_until worker d msg (some interrupted) = do
    modify interrupted
    time_out_task seconds worker d.task_id msg

  -- what follows the read of the status
  unfoldable pub run_unclaimed : String → TaskData → Option Received → Bool → Action Unit
  unfolding run_until take_slot free_slot commit_message
  run_unclaimed worker d msg true = commit_message msg
  run_unclaimed worker d msg false = do
    take_slot worker
    run_until worker d msg (deadline d)
    free_slot worker

  unfoldable pub execute_task_with_semaphore : String → TaskData → Option Received → Action Unit
  unfolding run_unclaimed fail_slot read_status
  execute_task_with_semaphore worker d msg =
      try_except
        (do status ← read_status d.task_id; run_unclaimed worker d msg (is_claimed_already status))
        (λ e. fail_slot worker d.task_id msg (message_of e))
