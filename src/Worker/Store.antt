-- ===== src/Worker/Store.antt =====
-- The Worker's writes to the task table (apps/worker/infrastructure/db/task_status_store.py, and the
-- transactions around them in apps/worker/infrastructure/redis/master_gateway.py), and its commits of
-- consumer offsets. Each call has a transaction of its own, so it changes what is durable.
pub mod Rows
use vanguard_runner.Base.{
  ℕ, ◌-◌, String, Bool, true, false, ◌&&◌, ◌==◌, ltb, Option, none, some, List, [], ◌∷◌, ◌++◌, map,
  any, select, modify_where, if◌then◌else◌,
}
use vanguard_runner.Model.{
  Status, pending, is_running, Message, blank, TaskExecution, World, Offset, Action, pure, gets,
  modify, ◌>>=◌, ◌>>◌, try_except, external,
}
use vanguard_runner.Database.{has_id, or_else}

-- The arguments of `update_task_status` after the task's id; `none` leaves a column alone.
pub record WorkerUpdate : Type 0 where
  pub status : Status
  pub worker_id : Option String
  pub progress : Option ℕ
  pub started_at : Option ℕ
  pub finished_at : Option ℕ
  pub error_message : Option Message

-- A call that names the status alone.
abbrev pub worker_update : Status → WorkerUpdate
worker_update s = record {
  status = s;
  worker_id = none;
  progress = none;
  started_at = none;
  finished_at = none;
  error_message = none;
}

abbrev pub given {ℓ} : {A : Type ℓ} → Option A → A → A
given none a = a
given (some b) a = b

-- the assignments of the UPDATE statement
unfoldable pub assign : WorkerUpdate → TaskExecution → TaskExecution
assign u t = record t {
  status = u.status;
  worker_id = or_else u.worker_id t.worker_id;
  progress = given u.progress t.progress;
  started_at = or_else u.started_at t.started_at;
  finished_at = or_else u.finished_at t.finished_at;
  error_message = or_else u.error_message t.error_message;
}

-- `if success: commit` of a transaction that has made one UPDATE: its rows are those of the test
unfoldable pub commit_update :
    (TaskExecution → Bool) → (TaskExecution → TaskExecution) → Bool → Action Bool
unfolding external
commit_update p f true = do
  external
  modify (λ w. record w { committed = modify_where p f w.committed })
  pure true
commit_update p f false = pure false

-- One UPDATE in a transaction of its own, and whether it matched a row.
unfoldable pub transaction : (TaskExecution → Bool) → (TaskExecution → TaskExecution) → Action Bool
unfolding external commit_update
transaction p f = do external; matched ← gets (λ w. any p w.committed); commit_update p f matched

unfoldable pub persist_task_status : String → WorkerUpdate → Action Bool
unfolding assign transaction
persist_task_status id u = transaction (has_id id) (assign u)

-- `update_task_status_in_db` of the runtime, which only logs a failure
unfoldable pub update_task_status_in_db : String → WorkerUpdate → Action Unit
unfolding persist_task_status
update_task_status_in_db id u =
    try_except (do done ← persist_task_status id u; pure tt) (λ _. pure tt)

-- the row as `reset_task_for_recovery` leaves it
unfoldable pub recovered : TaskExecution → TaskExecution
recovered t = record t {
  status = pending;
  worker_id = some "";
  progress = 0;
  started_at = none;
  finished_at = none;
  error_message = some blank;
}

-- its WHERE clause
abbrev pub is_running_task : String → TaskExecution → Bool
is_running_task id t = has_id id t && is_running t.status

unfoldable pub reset_task_after_recovery : String → Action Bool
unfolding recovered transaction
reset_task_after_recovery id = transaction (is_running_task id) recovered

-- `started_at IS NOT NULL AND started_at < :started_before`
abbrev pub started_before : ℕ → Option ℕ → Bool
started_before instant none = false
started_before instant (some t) = ltb t instant

-- the WHERE clause of `query_recoverable_running_tasks`
unfoldable pub is_recoverable : ℕ → TaskExecution → Bool
is_recoverable instant t = is_running t.status && started_before instant t.started_at

-- a row of its result; a NULL worker is the empty text
pub record Recoverable : Type 0 where
  pub task_id : String
  pub worker_id : String

abbrev pub recoverable_of : TaskExecution → Recoverable
recoverable_of t = record { task_id = t.task_id; worker_id = given t.worker_id "" }

unfoldable pub query_recoverable_tasks : ℕ → Action (List Recoverable)
unfolding external is_recoverable
query_recoverable_tasks instant = do
  external
  gets (λ w. map recoverable_of (select (is_recoverable instant) w.committed))

-- `consumer.commit(offsets=...)`
unfoldable pub commit_offset : Offset → Action Unit
unfolding external
commit_offset o = do external; modify (λ w. record w { offsets = w.offsets ++ o ∷ [] })
