-- ===== src/Routes/Tasks.antt =====
-- `get_task_status`, `cancel_task` and `retry_task` (apps/master/api/routes/task_router.py), and the
-- batch routes for them (apps/master/api/routes/workflow_router.py).
use vanguard_runner.Base.{ℕ, String, Option, none, some}
use vanguard_runner.Model.{TaskExecution, TaskHash, Action, pure, ◌>>=◌, ◌>>◌, try_except}
use vanguard_runner.Database.{query_task_by_id}
use vanguard_runner.Redis.{get_task_status}
use vanguard_runner.Master.Cancel
use vanguard_runner.Master.Retry
use vanguard_runner.Master.Cancel.{CancelResult, BatchCount, cancel_task, cancel_batch_tasks}
use vanguard_runner.Master.Retry.{RetryResult, retry_task}
use vanguard_runner.Master.RetryBatch.{retry_batch_tasks}
use vanguard_runner.Master.Compensation.{get_redis_client}
use vanguard_runner.Routes.Replies.{Reply, ok, error_reply}

-- The reply of the status route, by its `source`.
pub data StatusReply : Type 0 where
  from_redis : TaskHash → StatusReply
  from_database : TaskExecution → StatusReply

abbrev pub database_reply : Option TaskExecution → Reply StatusReply
database_reply none = error_reply 404
database_reply (some t) = ok (from_database t)

-- what follows the read of Redis
unfoldable pub status_reply : String → Option TaskHash → Action (Reply StatusReply)
status_reply id (some h) = pure (ok (from_redis h))
status_reply id none = do found ← query_task_by_id id; pure (database_reply found)

unfoldable pub get_status_route : String → Action (Reply StatusReply)
unfolding status_reply
get_status_route id =
    try_except (do get_redis_client; hash ← get_task_status id; status_reply id hash)
      (λ _. pure (error_reply 500))

abbrev pub cancel_reply : CancelResult → Reply Unit
cancel_reply Cancel.not_found = error_reply 404
cancel_reply (Cancel.not_cancelled s) = error_reply 409
cancel_reply Cancel.was_cancelled = ok tt

unfoldable pub cancel_task_route : String → Action (Reply Unit)
cancel_task_route id =
    try_except (do r ← cancel_task id; pure (cancel_reply r)) (λ _. pure (error_reply 500))

-- The retry's reply carries the new count.
abbrev pub retry_reply : RetryResult → Reply ℕ
retry_reply Retry.not_found = error_reply 404
retry_reply (Retry.bad_status s) = error_reply 409
retry_reply (Retry.exhausted s) = error_reply 409
retry_reply (Retry.was_retried n) = ok n

unfoldable pub retry_task_route : String → Action (Reply ℕ)
retry_task_route id =
    try_except (do r ← retry_task id; pure (retry_reply r)) (λ _. pure (error_reply 500))

abbrev pub count_reply : Option BatchCount → Reply BatchCount
count_reply none = error_reply 404
count_reply (some c) = ok c

unfoldable pub cancel_batch_route : String → Action (Reply BatchCount)
cancel_batch_route id =
    try_except (do r ← cancel_batch_tasks id; pure (count_reply r)) (λ _. pure (error_reply 500))

unfoldable pub retry_batch_route : String → Action (Reply BatchCount)
retry_batch_route id =
    try_except (do r ← retry_batch_tasks id; pure (count_reply r)) (λ _. pure (error_reply 500))
