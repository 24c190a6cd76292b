-- ===== src/Worker/Execution/Running.antt =====
-- What the execution of a workflow task leaves in the stores where they do not fail.
use vanguard_runner.Base.{
  ℕ, String, Bool, true, false, ◌==◌, ltb, ◌≡◌, refl, Option, some, List, [], ◌∷◌, modify_where,
  arith, Bool-cases, inl, inr,
}
use vanguard_runner.Model.{
  Json, truthy, running, success, failed, Message, blank, TaskExecution, TaskHash, World, at, calm,
  return, Action, pure, try_except,
}
use vanguard_runner.Redis.{at_key, update_task_field}
use vanguard_runner.Redis.Hashes.{at_key-at_key}
use vanguard_runner.Database.{has_id}
use vanguard_runner.Worker.Store.{WorkerUpdate, worker_update, assign}
use vanguard_runner.Worker.Store.Rows.{update_task_status_in_db-run}
use vanguard_runner.Worker.Execution.{
  TaskData, RunResult, finished_update, error_of, skip_above, start_task, fail_task, write_success,
  store_result, store_success, finish_success, finish_result, finish_task, report_result,
  execute_task_async, execute_task,
}

-- the update of the row at the start of a run
abbrev pub start_update : String → ℕ → WorkerUpdate
start_update worker now = record (worker_update running) {
  worker_id = some worker;
  progress = some 0;
  started_at = some now;
}

abbrev pub started_hash : String → ℕ → TaskHash → TaskHash
started_hash worker now h = record h {
  status = some running;
  progress = some 0;
  worker_id = some worker;
  started_at = some (at now);
}

-- A world after writes to the hash and the row of one task.
abbrev pub written :
    String → (TaskHash → TaskHash) → (TaskExecution → TaskExecution) → World → World
written id f g w = record (calm w) {
  redis = at_key id f w.redis;
  committed = modify_where (has_id id) g w.committed;
}

start_task-run :
    (worker id : String) (w : World)
    → start_task worker id (calm w) ≡ (
      return tt,
      written id (started_hash worker w.clock) (assign (start_update worker w.clock)) w,
    )
unfolding start_task update_task_field
start_task-run worker id w =
    rw
      (
        at_key-at_key id,
        at_key-at_key id,
        at_key-at_key id,
        update_task_status_in_db-run id (start_update worker w.clock)
            (record w { redis = at_key id (started_hash worker w.clock) w.redis }),
      )
      refl

abbrev pub failed_hash : ℕ → Message → TaskHash → TaskHash
failed_hash now m h = record h {
  status = some failed;
  progress = some 100;
  error_message = some m;
  finished_at = some (at now);
}

fail_finish-run :
    (worker id : String) (m : Message) (w : World)
    → fail_task worker id m
        (record (calm w) { redis = at_key id (λ h. record h { progress = some 100 }) w.redis })
      ≡ (
        return tt,
        written id (failed_hash w.clock m) (assign (finished_update failed worker w.clock m)) w,
      )
unfolding fail_task update_task_field
fail_finish-run worker id m w =
    rw
      (
        at_key-at_key id,
        at_key-at_key id,
        at_key-at_key id,
        update_task_status_in_db-run id (finished_update failed worker w.clock m)
            (record w { redis = at_key id (failed_hash w.clock m) w.redis }),
      )
      refl

abbrev pub progressed : TaskHash → TaskHash
progressed h = record h { progress = some 100 }

abbrev pub stored_result : Json → Bool → Option Json → Option Json
stored_result j true before = some j
stored_result j false before = before

-- the hash at the end of a successful run; over fifty steps only the progress is written
abbrev pub succeeded_hash : ℕ → Json → Bool → TaskHash → TaskHash
succeeded_hash now j true h = progressed h
succeeded_hash now j false h = record h {
  progress = some 100;
  status = some success;
  finished_at = some (at now);
  result = stored_result j (truthy j) h.result;
}

-- the hash at the end of a run with a result, by its success
abbrev pub result_hash : ℕ → RunResult → Bool → TaskHash → TaskHash
result_hash now r true h = succeeded_hash now r.result (ltb skip_above r.total_steps) h
result_hash now r false h = failed_hash now (error_of r) h

-- the update of the row at the end of a run with a result, by its success
abbrev pub end_update : String → ℕ → RunResult → Bool → WorkerUpdate
end_update worker now r true = finished_update success worker now blank
end_update worker now r false = finished_update failed worker now (error_of r)

abbrev ended : ℕ → TaskHash → TaskHash
ended now h = record h { progress = some 100; status = some success; finished_at = some (at now) }

store_result-run :
    (id : String) (now : ℕ) (j : Json) (b : Bool) (w : World)
    → try_except
        (store_result id j b)
        (λ _. pure tt)
        (record (calm w) { redis = at_key id (ended now) w.redis })
      ≡ (
        return tt,
        record (calm w) {
          redis =
              at_key id (λ h. record (ended now h) { result = stored_result j b h.result }) w.redis;
        },
      )
unfolding store_result update_task_field
store_result-run id now j true w = rw (at_key-at_key id) refl
store_result-run id now j false w = refl

store_success-run :
    (id : String) (now : ℕ) (j : Json) (many : Bool) (w : World)
    → store_success id now j many (record (calm w) { redis = at_key id progressed w.redis })
      ≡ (return tt, record (calm w) { redis = at_key id (succeeded_hash now j many) w.redis })
unfolding store_success write_success update_task_field
store_success-run id now j true w = refl
store_success-run id now j false w =
    rw
      (
        at_key-at_key id progressed (λ h. record h { status = some success }) w.redis,
        at_key-at_key id (λ h. record h { progress = some 100; status = some success })
            (λ h. record h { finished_at = some (at now) }) w.redis,
        store_result-run id now j (truthy j) w,
      )
      refl

finish_result-run :
    (worker id : String) (r : RunResult) (ok : Bool) (w : World)
    → finish_result worker id r ok (record (calm w) { redis = at_key id progressed w.redis }) ≡ (
      return tt,
      written id (result_hash w.clock r ok) (assign (end_update worker w.clock r ok)) w,
    )
unfolding finish_result finish_success
finish_result-run worker id r true w =
    rw
      (
        store_success-run id w.clock r.result (ltb skip_above r.total_steps) w,
        update_task_status_in_db-run id (finished_update success worker w.clock blank) (record w {
          redis =
              at_key id (succeeded_hash w.clock r.result (ltb skip_above r.total_steps)) w.redis;
        }),
      )
      refl
finish_result-run worker id r false w = fail_finish-run worker id (error_of r) w

-- The hash and the rows of a task after a run with the result `r`.
abbrev pub run_hash : String → ℕ → RunResult → TaskHash → TaskHash
run_hash worker now r h = result_hash now r r.success (started_hash worker now h)

abbrev pub run_row : String → ℕ → RunResult → TaskExecution → TaskExecution
run_row worker now r t =
    assign (end_update worker now r r.success) (assign (start_update worker now) t)

modify_where-twice :
    (id : String) (u v : WorkerUpdate) (rows : List TaskExecution)
    → modify_where (has_id id) (assign v) (modify_where (has_id id) (assign u) rows)
      ≡ modify_where (has_id id) (λ t. assign v (assign u t)) rows
unfolding assign
modify_where-twice id u v [] = refl
modify_where-twice id u v (t ∷ rows) = ground (arith, modify_where-twice id u v rows)

module _ (execute : TaskData → Action (Option RunResult)) (enabled : Bool)
    (report : TaskData → RunResult → Action Unit) (worker : String) (d : TaskData)
    (is_workflow : d.task_type == "workflow" ≡ true) (r : RunResult)
    (executes : (v : World) → execute d v ≡ (return (some r), v))
    (reports : (v : World) → report d r v ≡ (return tt, v)) where
  execute_task_async-run :
      (v : World) → execute_task_async execute enabled report d v ≡ (return (some r), v)
  unfolding execute_task_async report_result
  execute_task_async-run v = elim (Bool-cases enabled) [
    | inl e ↦ rw (e, executes v, reports v) refl
    | inr e ↦ rw (e, executes v) refl
  ]

  -- Where no store fails, and the engine and the callback leave the stores alone: a workflow task
  -- whose run gives a result leaves its hash with the fields of the start and then those of the end,
  -- its rows likewise, and every other row and key alone.
  pub execute_task-run :
      (w : World)
      → execute_task execute enabled report worker d (calm w)
        ≡ (return tt, written d.task_id (run_hash worker w.clock r) (run_row worker w.clock r) w)
  unfolding execute_task finish_task update_task_field
  execute_task-run w =
      rw
        (
          is_workflow,
          start_task-run worker d.task_id w,
          execute_task_async-run,
          finish_result-run worker d.task_id r r.success (
              written d.task_id (started_hash worker w.clock) (assign (start_update worker w.clock))
                w),
          at_key-at_key d.task_id (started_hash worker w.clock) (result_hash w.clock r r.success)
              w.redis,
          modify_where-twice d.task_id,
        )
        refl
