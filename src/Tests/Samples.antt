-- ===== src/Tests/Samples.antt =====
-- A batch of three tasks, one pending, one failed with a retry left and one successful.
use vanguard_runner.Base.{ℕ, String, none, some, List, [], ◌∷◌}
use vanguard_runner.Model.{Status, pending, failed, success, end, TaskExecution, World}

abbrev pub task_row : String → Status → ℕ → TaskExecution
task_row id s n = record {
  task_id = id;
  parent_task_id = "batch";
  task_type = "workflow";
  priority = "high";
  status = s;
  payload = end;
  worker_id = none;
  progress = 0;
  retry_count = some n;
  max_retries = some 3;
  timeout_seconds = some 300;
  error_message = none;
  created_by = "jan";
  created_at = 5;
  started_at = none;
  finished_at = none;
}

abbrev pub rows : List TaskExecution
rows = task_row "a" pending 0 ∷ task_row "b" failed 2 ∷ task_row "c" success 0 ∷ []

abbrev pub world : World
world = record {
  committed = rows;
  session = rows;
  redis = λ k. none;
  workers = [];
  sent = [];
  background = [];
  offsets = [];
  faults = none ∷ none ∷ none ∷ some "redis is down" ∷ [];
  clock = 9;
  fresh = 0;
}
