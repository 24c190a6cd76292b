-- ===== src/Redis.antt =====
-- RedisClient (packages/shared/infrastructure/redis_client.py): the hashes of tasks and workers.
pub mod Hashes
use vanguard_runner.Base.{ℕ, String, ◌==◌, Option, none, some, List, if◌then◌else◌}
use vanguard_runner.Model.{
  Status, Message, Json, Stamp, never, TaskHash, WorkerHash, Action, gets, modify, ◌>>◌, external,
}

-- A key that is not there, as a hash: no field and no time to live.
abbrev pub no_hash : TaskHash
no_hash = record {
  status = none;
  progress = none;
  worker_id = none;
  started_at = none;
  finished_at = none;
  retry_count = none;
  error_message = none;
  result = none;
  expires = none;
}

abbrev pub hash_or_new : Option TaskHash → TaskHash
hash_or_new none = no_hash
hash_or_new (some h) = h

-- A change of the hash of one task; a write creates the key, and leaves its time to live alone.
abbrev pub at_key :
    String → (TaskHash → TaskHash) → (String → Option TaskHash) → String → Option TaskHash
at_key id f redis k = if id == k then some (f (hash_or_new (redis id))) else redis k

-- The fields that are written one by one.
pub data FieldWrite : Type 0 where
  put_status : Status → FieldWrite
  put_progress : ℕ → FieldWrite
  put_worker_id : String → FieldWrite
  put_started_at put_finished_at : Stamp → FieldWrite
  put_error_message : Message → FieldWrite
  put_result : Json → FieldWrite

abbrev pub write_field : FieldWrite → TaskHash → TaskHash
write_field (put_status s) h = record h { status = some s }
write_field (put_progress n) h = record h { progress = some n }
write_field (put_worker_id s) h = record h { worker_id = some s }
write_field (put_started_at t) h = record h { started_at = some t }
write_field (put_finished_at t) h = record h { finished_at = some t }
write_field (put_error_message m) h = record h { error_message = some m }
write_field (put_result j) h = record h { result = some j }

-- `update_task_field`, and the Worker's `client.hset(f"task:{task_id}", field, value)`
unfoldable pub update_task_field : String → FieldWrite → Action Unit
unfolding external
update_task_field id f = do
  external
  modify (λ w. record w { redis = at_key id (write_field f) w.redis })

-- The arguments of `set_task_status` after the task's id.
pub record StatusWrite : Type 0 where
  pub status : Status
  pub progress : ℕ
  pub worker_id : String
  pub started_at : Stamp
  pub finished_at : Stamp
  pub retry_count : ℕ
  pub expire : ℕ

-- A call that names the status and the progress, with the defaults of the signature.
abbrev pub status_write : Status → ℕ → StatusWrite
status_write s n = record {
  status = s;
  progress = n;
  worker_id = "";
  started_at = never;
  finished_at = never;
  retry_count = 0;
  expire = 86400;
}

-- the `mapping` of the one `hset`
abbrev pub write_mapping : StatusWrite → TaskHash → TaskHash
write_mapping s h = record h {
  status = some s.status;
  progress = some s.progress;
  worker_id = some s.worker_id;
  started_at = some s.started_at;
  finished_at = some s.finished_at;
  retry_count = some s.retry_count;
}

unfoldable pub set_task_status : String → StatusWrite → Action Unit
unfolding external
set_task_status id s = do
  external
  modify (λ w. record w { redis = at_key id (write_mapping s) w.redis })
  external
  modify (λ w. record w { redis = at_key id (λ h. record h { expires = some s.expire }) w.redis })

unfoldable pub get_task_status : String → Action (Option TaskHash)
unfolding external
get_task_status id = do external; gets (λ w. w.redis id)

-- the ids of `get_all_workers`
unfoldable pub get_all_workers : Action (List (String × WorkerHash))
unfolding external
get_all_workers = do external; gets (λ w. w.workers)
