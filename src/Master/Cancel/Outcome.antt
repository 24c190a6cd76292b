-- ===== src/Master/Cancel/Outcome.antt =====
-- What `cancel_task` leaves in both stores where they do not fail.
use vanguard_runner.Base.{some}
use vanguard_runner.Model.{cancelled, cancelled_before_execution, TaskHash, World, at, never}

-- the hash of a cancelled task, over what its key held
abbrev pub cancelled_hash : World → TaskHash → TaskHash
cancelled_hash w h = record h {
  status = some cancelled;
  progress = some 100;
  worker_id = some "";
  started_at = some never;
  finished_at = some (at w.clock);
  retry_count = some 0;
  error_message = some cancelled_before_execution;
  expires = some 86400;
}
