-- ===== src/Master/Retry/Outcome.antt =====
-- What `retry_task` leaves in the stores where they do not fail.
use vanguard_runner.Base.{some}
use vanguard_runner.Model.{pending, blank, TaskHash, never}

-- the hash of a task that is retried, over what its key held
abbrev pub retried_hash : TaskHash → TaskHash
retried_hash h = record h {
  status = some pending;
  progress = some 0;
  worker_id = some "";
  started_at = some never;
  finished_at = some never;
  retry_count = some 0;
  error_message = some blank;
  expires = some 86400;
}
