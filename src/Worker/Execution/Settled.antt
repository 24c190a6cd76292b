-- ===== src/Worker/Execution/Settled.antt =====
-- What Redis and the database say of a task whose run has ended.
use vanguard_runner.Base.{
  ℕ, ◌≤◌, ◌<◌, ◌⊎◌, String, Bool, true, false, ◌==◌, eq_refl, ltb, ◌≡◌, refl, sym, Option, some,
  List, [], ◌∷◌, modify_where, arith, Bool-cases, inl, inr,
}
use mathlib.Core.Path.{subst}
use vanguard_runner.Model.Post.{Returns}
use vanguard_runner.Model.{
  Status, running, success, failed, TaskExecution, TaskHash, World, calm, return, Action,
}
use vanguard_runner.Redis.{hash_or_new}
use vanguard_runner.Database.{has_id}
use vanguard_runner.Database.Rows.{row, map_row}
use vanguard_runner.Worker.Store.{assign}
use vanguard_runner.Worker.Execution.{TaskData, RunResult, skip_above, execute_task}
use vanguard_runner.Worker.Execution.Running.{
  started_hash, start_update, result_hash, end_update, run_hash, run_row, execute_task-run,
}

-- the status that a run's result stands for
abbrev pub status_for : Bool → Status
status_for true = success
status_for false = failed

-- Redis and the database at the end of a run, of its hash and its row.
pub record Settled (r : RunResult) (now : ℕ) (h : TaskHash) (t : TaskExecution) : Type 0 where
  pub row_status : t.status ≡ status_for r.success
  pub row_progress : t.progress ≡ 100
  pub row_finished : t.finished_at ≡ some now
  pub hash_progress : h.progress ≡ some 100
  pub agree : (r.success ≡ false) ⊎ (r.total_steps ≤ 50) → h.status ≡ some t.status
  pub stale : r.success ≡ true → 50 < r.total_steps → h.status ≡ some running

result-Settled :
    (worker : String) (now : ℕ) (r : RunResult) (ok : Bool)
    → r.success ≡ ok
    → (h : TaskHash) (t : TaskExecution)
    → Settled r now
        (result_hash now r ok (started_hash worker now h))
        (assign (end_update worker now r ok) (assign (start_update worker now) t))
unfolding assign
result-Settled worker now r false e h t = record {
  row_status = rw e refl;
  row_progress = refl;
  row_finished = refl;
  hash_progress = refl;
  agree = λ _. refl;
  stale = λ y _. ground (arith, e, y);
}
result-Settled worker now r true e h t = elim (Bool-cases (ltb skip_above r.total_steps)) [
  | inl l ↦ record {
    row_status = rw e refl;
    row_progress = refl;
    row_finished = refl;
    hash_progress = rw l refl;
    agree = λ c. absurd (ground arith);
    stale = λ _ _. rw l refl;
  }
  | inr l ↦ record {
    row_status = rw e refl;
    row_progress = refl;
    row_finished = refl;
    hash_progress = rw l refl;
    agree = λ _. rw l refl;
    stale = λ _ b. absurd (ground arith);
  }
]

row-run_row :
    (id worker : String) (now : ℕ) (r : RunResult) (rows : List TaskExecution)
    → row id (modify_where (has_id id) (run_row worker now r) rows)
      ≡ map_row (run_row worker now r) (row id rows)
unfolding assign
row-run_row id worker now r [] = refl
row-run_row id worker now r (t ∷ rows) = ground (arith, row-run_row id worker now r rows)

-- The hash and the row of a task in a world where they are settled.
pub record TaskSettled (id : String) (r : RunResult) (now : ℕ) (v : World) : Type 0 where
  pub hash : TaskHash
  pub task : TaskExecution
  pub in_redis : v.redis id ≡ some hash
  pub in_database : row id v.committed ≡ some task
  pub settled : Settled r now hash task

module _ (execute : TaskData → Action (Option RunResult)) (enabled : Bool)
    (report : TaskData → RunResult → Action Unit) (worker : String) (d : TaskData)
    (is_workflow : d.task_type == "workflow" ≡ true) (r : RunResult)
    (executes : (v : World) → execute d v ≡ (return (some r), v))
    (reports : (v : World) → report d r v ≡ (return tt, v)) (w : World) (t : TaskExecution)
    (found : row d.task_id w.committed ≡ some t) where
  -- Where no store fails, and the engine and the callback leave the stores alone: after a workflow
  -- task whose run gives a result, its row has the status of the result, progress 100 and the time of
  -- the end; its hash has the same status where the run failed or has at most fifty steps, and is
  -- left at `running` where it succeeded with more than fifty.
  pub execute_task-TaskSettled :
      Returns
        (execute_task execute enabled report worker d (calm w))
        (λ _ v. TaskSettled d.task_id r w.clock v)
  execute_task-TaskSettled =
      subst (λ o. Returns o (λ _ v. TaskSettled d.task_id r w.clock v))
        (sym (execute_task-run execute enabled report worker d is_workflow r executes reports w))
        (record {
          hash = run_hash worker w.clock r (hash_or_new (w.redis d.task_id));
          task = run_row worker w.clock r t;
          in_redis = rw (eq_refl d.task_id) refl;
          in_database = rw (row-run_row d.task_id worker w.clock r w.committed, found) refl;
          settled =
              result-Settled worker w.clock r r.success refl (hash_or_new (w.redis d.task_id)) t;
        })
