-- ===== src/Worker/Recovery.antt =====
-- `recover_stale_running_tasks` (apps/worker/runtime/main.py), one round of its loop.
pub mod Safety
use vanguard_runner.Base.{
  ℕ, ◌-◌, String, Bool, true, false, not, ◌&&◌, ◌==◌, Option, none, some, List, [], ◌∷◌, any,
  if◌then◌else◌,
}
use vanguard_runner.Model.{
  pending, blank, never, WorkerHash, World, Action, pure, gets, ◌>>=◌, ◌>>◌, try_except, for_each,
}
use vanguard_runner.Redis.{
  update_task_field, put_worker_id, put_started_at, put_finished_at, put_error_message,
  set_task_status, status_write, get_all_workers,
}
use vanguard_runner.Worker.Store.{Recoverable, query_recoverable_tasks, reset_task_after_recovery}

-- `task_worker_id and task_worker_id in active_worker_ids`
unfoldable pub is_owned : List (String × WorkerHash) → String → Bool
is_owned workers id = not (id == "") && any (λ w. w.0 == id) workers

-- the five writes after a successful reset
unfoldable pub reset_in_redis : String → Action Unit
reset_in_redis id = do
  set_task_status id (status_write pending 0)
  update_task_field id (put_worker_id "")
  update_task_field id (put_started_at never)
  update_task_field id (put_finished_at never)
  update_task_field id (put_error_message blank)

-- one task of the sweep, by whether a live worker owns it
unfoldable pub recover_unowned : String → Bool → Action Unit
recover_unowned id true = pure tt
recover_unowned id false = do
  success ← reset_task_after_recovery id
  if success then reset_in_redis id else pure tt

unfoldable pub recover_one : List (String × WorkerHash) → Recoverable → Action Unit
unfolding recover_unowned is_owned
recover_one workers r = recover_unowned r.task_id (is_owned workers r.worker_id)

-- the body of the `try`; `min_age` is TASK_RECOVERY_MIN_AGE_SECONDS
unfoldable pub recovery_round : ℕ → Action Unit
recovery_round min_age = do
  now ← gets (λ w. w.clock)
  workers ← get_all_workers
  tasks ← query_recoverable_tasks (now - min_age)
  for_each tasks (recover_one workers)

-- One round of the loop. A failure ends the round and is logged.
unfoldable pub recover_stale_running_tasks : ℕ → Action Unit
unfolding recovery_round
recover_stale_running_tasks min_age = try_except (recovery_round min_age) (λ _. pure tt)
