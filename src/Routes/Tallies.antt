-- ===== src/Routes/Tallies.antt =====
-- The counts of `get_batch_workflow_status` (apps/master/api/routes/workflow_router.py) and of
-- `get_queue_status` (apps/master/api/routes/task_router.py).
pub mod Laws
use vanguard_runner.Base.{
  ℕ, ◌+◌, String, Bool, true, false, ◌&&◌, ltb, nat_eq, ◌||◌, Option, none, some, List, [], ◌∷◌,
  length, take, if◌then◌else◌,
}
use vanguard_runner.Model.{
  Status, pending, running, success, failed, timeout, cancelled, other, TaskExecution, Action, pure,
  ◌>>=◌, ◌>>◌, try_except,
}
use vanguard_runner.Database.{query_tasks_by_parent_id}
use vanguard_runner.Master.Compensation.{get_redis_client}
use vanguard_runner.Routes.Replies.{Reply, ok, error_reply}

-- the dictionary `status_count`
pub record StatusCount : Type 0 where
  pub pendings : ℕ
  pub runnings : ℕ
  pub successes : ℕ
  pub failures : ℕ
  pub timeouts : ℕ
  pub cancellations : ℕ

abbrev pub no_tasks : StatusCount
no_tasks = record {
  pendings = 0;
  runnings = 0;
  successes = 0;
  failures = 0;
  timeouts = 0;
  cancellations = 0;
}

-- `if status in status_count: status_count[status] += 1`
unfoldable pub count_status : StatusCount → Status → StatusCount
count_status c pending = record c { pendings = c.pendings + 1 }
count_status c running = record c { runnings = c.runnings + 1 }
count_status c success = record c { successes = c.successes + 1 }
count_status c failed = record c { failures = c.failures + 1 }
count_status c timeout = record c { timeouts = c.timeouts + 1 }
count_status c cancelled = record c { cancellations = c.cancellations + 1 }
count_status c (other s) = c

-- the loop over the tasks
unfoldable pub tally : StatusCount → List TaskExecution → StatusCount
tally c [] = c
tally c (t ∷ ts) = tally (count_status c t.status) ts

unfoldable pub completed : StatusCount → ℕ
completed c = c.successes + c.failures + c.timeouts + c.cancellations

unfoldable pub overall_status : StatusCount → ℕ → String
overall_status c total =
    if ltb 0 c.runnings || ltb 0 c.pendings
    then "running"
    else if nat_eq c.cancellations total
    then "cancelled"
    else if ltb 0 c.failures || ltb 0 c.timeouts
    then if ltb 0 c.successes || ltb 0 c.cancellations then "completed_with_errors" else "failed"
    else if ltb 0 c.cancellations
    then if ltb 0 c.successes then "completed_with_cancellations" else "cancelled"
    else "success"

-- The reply of the batch's status. The two rates are kept as sums over `total`: the source divides
-- them as floats and rounds.
pub record BatchStatus : Type 0 where
  pub overall : String
  pub total : ℕ
  pub done : ℕ
  pub progress_sum : ℕ
  pub counts : StatusCount
  pub tasks : List TaskExecution
  pub has_more : Bool

unfoldable pub progress_of : List TaskExecution → ℕ
progress_of [] = 0
progress_of (t ∷ ts) = t.progress + progress_of ts

unfoldable pub batch_status : List TaskExecution → BatchStatus
unfolding tally overall_status completed progress_of
batch_status tasks =
    let c = tally no_tasks tasks in
    record {
      overall = overall_status c (length tasks);
      total = length tasks;
      done = completed c;
      progress_sum = progress_of tasks;
      counts = c;
      tasks = take 100 tasks;
      has_more = ltb 100 (length tasks);
    }

abbrev pub batch_reply : List TaskExecution → Reply BatchStatus
batch_reply [] = error_reply 404
batch_reply (t ∷ ts) = ok (batch_status (t ∷ ts))

unfoldable pub get_batch_workflow_status : String → Action (Reply BatchStatus)
unfolding batch_status
get_batch_workflow_status tracer_id =
    try_except
      (do get_redis_client; tasks ← query_tasks_by_parent_id tracer_id; pure (batch_reply tasks))
      (λ _. pure (error_reply 500))

-- One assignment of the loop of `get_queue_status`: the rows are those of `GROUP BY status`.
unfoldable pub set_count : StatusCount → Status × ℕ → StatusCount
set_count c (pending, n) = record c { pendings = n }
set_count c (running, n) = record c { runnings = n }
set_count c (success, n) = record c { successes = n }
set_count c (failed, n) = record c { failures = n }
set_count c (timeout, n) = record c { timeouts = n }
set_count c (cancelled, n) = record c { cancellations = n }
set_count c (other s, n) = c

unfoldable pub queue_counts : StatusCount → List (Status × ℕ) → StatusCount
queue_counts c [] = c
queue_counts c (r ∷ rs) = queue_counts (set_count c r) rs

-- `completed` of the queue leaves the cancelled tasks out, and `total` has them.
pub record QueueStatus : Type 0 where
  pub counts : StatusCount
  pub completed_tasks : ℕ
  pub total_tasks : ℕ

abbrev pub sum_counts : StatusCount → ℕ
sum_counts c = c.pendings + c.runnings + c.successes + c.failures + c.timeouts + c.cancellations

-- The reply for the rows of the query, where the query does not fail.
unfoldable pub get_queue_status : List (Status × ℕ) → QueueStatus
unfolding queue_counts
get_queue_status rows =
    let c = queue_counts no_tasks rows in
    record {
      counts = c;
      completed_tasks = c.successes + c.failures + c.timeouts;
      total_tasks = sum_counts c;
    }
