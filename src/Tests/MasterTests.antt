-- ===== src/Tests/MasterTests.antt =====
-- The theorems on the Master at the sample batch, and runs of its operations.
use vanguard_runner.Base.{ℕ, zero, suc, refl, true, none, [], ◌∷◌, arith, String}
use vanguard_runner.Model.{Fields, field, arr, nil, Task, end}
use vanguard_runner.Model.Post.{Post, Returns}
use vanguard_runner.Kafka.{TaskInfo, send_tasks_batch}
use vanguard_runner.Kafka.Batch.{Accounts, send_tasks_batch-Accounts}
use vanguard_runner.Master.Cancel.{cancel_task, cancel_batch_tasks}
use vanguard_runner.Master.Cancel.Safety.{CancelReport, CancelsOnly, cancel_task-CancelReport}
use vanguard_runner.Master.Cancel.Batch.{
  BatchReport, CancelsPending, IsKeyed, cancel_batch_tasks-BatchReport,
}
use vanguard_runner.Master.Retry.{retry_task}
use vanguard_runner.Master.Retry.Safety.{RetryReport, RetriesOnly, retry_task-RetryReport}
use vanguard_runner.Master.Retry.Limit.{WithinLimits, retry_task-WithinLimits}
use vanguard_runner.Master.RetryBatch.{retry_batch_tasks}
use vanguard_runner.Master.RetryBatch.Counts.{RetryAnswer, retry_batch_tasks-RetryAnswer}
use vanguard_runner.Tests.Samples.{rows, world}

cancel_task-CancelReport_example :
    Post (cancel_task "a" world) (CancelReport "a" 9 rows) (λ w. CancelsOnly "a" 9 rows w.committed)
cancel_task-CancelReport_example = cancel_task-CancelReport "a" world refl

rows-IsKeyed : IsKeyed rows
rows-IsKeyed = (refl, (refl, (refl, tt)))

cancel_batch_tasks-BatchReport_example :
    Post
      (cancel_batch_tasks "batch" world)
      (BatchReport 9 rows rows)
      (λ w. CancelsPending 9 rows w.committed)
cancel_batch_tasks-BatchReport_example =
    cancel_batch_tasks-BatchReport "batch" world rows-IsKeyed refl

retry_task-RetryReport_example :
    Post (retry_task "b" world) (RetryReport "b" rows) (λ w. RetriesOnly "b" rows w.committed)
retry_task-RetryReport_example = retry_task-RetryReport "b" world refl

rows-WithinLimits : WithinLimits rows
rows-WithinLimits = record { at = λ j t r. ground arith }

retry_task-WithinLimits_example : WithinLimits (retry_task "b" world).1.committed
retry_task-WithinLimits_example = retry_task-WithinLimits "b" world refl rows-WithinLimits

abbrev info : String → TaskInfo
info id = record {
  task_id = id;
  parent_task_id = "batch";
  task_type = "workflow";
  priority = "high";
  payload = end;
  created_by = "jan";
  retry_count = none;
  max_retries = none;
  timeout_seconds = none;
  use_workflow_topic = true;
}

send_tasks_batch-Accounts_example :
    Returns (send_tasks_batch (info "a" ∷ info "b" ∷ []) world) (Accounts [] ("a" ∷ "b" ∷ []))
send_tasks_batch-Accounts_example = send_tasks_batch-Accounts (info "a" ∷ info "b" ∷ []) world

retry_batch_tasks-RetryAnswer_example :
    Post (retry_batch_tasks "batch" world) (RetryAnswer rows []) (λ _. Unit)
retry_batch_tasks-RetryAnswer_example = retry_batch_tasks-RetryAnswer "batch" world

abbrev new_task_a : Task
new_task_a = record {
  task_id = "n";
  parent_task_id = "batch";
  task_type = "workflow";
  priority = "high";
  payload = end;
  created_at = 9;
  created_by = "jan";
}

-- the uuids "u" and "v", and a workflow with no node
abbrev uuid : ℕ → String
uuid zero = "u"
uuid (suc n) = "v"

abbrev empty_graph : Fields
empty_graph = field "nodes" (arr nil) (field "edges" (arr nil) end)
