-- ===== src/Database.antt =====
-- SQLAlchemyTaskRepository (apps/master/infrastructure/db/repositories/task_repository.py) and the
-- session that its callers commit. A repository method reads and writes what the session sees, and
-- turns an exception of the database into its own failure value; `commit` does not.
pub mod Rows
use vanguard_runner.Base.{
  ℕ, String, Bool, true, false, ◌==◌, leb, Option, none, some, List, [], ◌∷◌, ◌++◌, find, select,
  modify_where, if◌then◌else◌,
}
use vanguard_runner.Model.{
  Status, is_pending, Message, is_set, blank, TaskExecution, Payload, Action, pure, throw, gets,
  modify, ◌>>=◌, ◌>>◌, try_except, external,
}

abbrev pub has_id : String → TaskExecution → Bool
has_id id t = t.task_id == id

-- The arguments of `save_task`; the last three have the defaults of the signature at every call.
pub record NewTask : Type 0 where
  pub task_id : String
  pub parent_task_id : String
  pub task_type : String
  pub priority : String
  pub status : Status
  pub payload : Payload
  pub created_by : String

abbrev pub row_of : NewTask → ℕ → TaskExecution
row_of n now = record {
  task_id = n.task_id;
  parent_task_id = n.parent_task_id;
  task_type = n.task_type;
  priority = n.priority;
  status = n.status;
  payload = n.payload;
  worker_id = none;
  progress = 0;
  retry_count = some 0;
  max_retries = some 3;
  timeout_seconds = some 300;
  error_message = none;
  created_by = n.created_by;
  created_at = now;
  started_at = none;
  finished_at = none;
}

-- `db.add` is local to the session, so no call of the database can fail here.
unfoldable pub save_task : NewTask → Action Bool
save_task n = do
  now ← gets (λ w. w.clock)
  modify (λ w. record w { session = w.session ++ row_of n now ∷ [] })
  pure true

-- The arguments of `update_task_status` after the task's id.
pub record StatusUpdate : Type 0 where
  pub status : Status
  pub worker_id : String
  pub progress : ℕ
  pub started_at : Option ℕ
  pub finished_at : Option ℕ
  pub error_message : Message
  pub retry_count : Option ℕ
  pub max_retries : Option ℕ

-- A call that names only the status, with the defaults of the signature.
abbrev pub update_to : Status → StatusUpdate
update_to s = record {
  status = s;
  worker_id = "";
  progress = 0;
  started_at = none;
  finished_at = none;
  error_message = blank;
  retry_count = none;
  max_retries = none;
}

abbrev pub or_else {ℓ} : {A : Type ℓ} → Option A → Option A → Option A
or_else none b = b
or_else (some a) b = some a

-- the branch of `status == "pending"`: every execution field is overwritten
abbrev pub overwrite : StatusUpdate → TaskExecution → TaskExecution
overwrite u t = record t {
  status = u.status;
  worker_id = some u.worker_id;
  progress = u.progress;
  started_at = u.started_at;
  finished_at = u.finished_at;
  error_message = some u.error_message;
}

-- the other branch: an argument that is false in Python's sense leaves its field alone
abbrev pub fill_in : StatusUpdate → TaskExecution → TaskExecution
fill_in u t = record t {
  status = u.status;
  worker_id = if u.worker_id == "" then t.worker_id else some u.worker_id;
  progress = if leb 0 u.progress then u.progress else t.progress;
  started_at = or_else u.started_at t.started_at;
  finished_at = or_else u.finished_at t.finished_at;
  error_message = if is_set u.error_message then some u.error_message else t.error_message;
}

abbrev pub set_retries : StatusUpdate → TaskExecution → TaskExecution
set_retries u t = record t {
  retry_count = or_else u.retry_count t.retry_count;
  max_retries = or_else u.max_retries t.max_retries;
}

unfoldable pub apply_update : StatusUpdate → TaskExecution → TaskExecution
apply_update u t = set_retries u (if is_pending u.status then overwrite u t else fill_in u t)

-- what follows the query, by its result
unfoldable pub update_found : String → StatusUpdate → Option TaskExecution → Action Bool
update_found id u none = pure false
update_found id u (some t) = do
  modify (λ w. record w { session = modify_where (has_id id) (apply_update u) w.session })
  pure true

unfoldable pub update_task_status : String → StatusUpdate → Action Bool
unfolding update_found external
update_task_status id u =
    try_except
      (do external; found ← gets (λ w. find (has_id id) w.session); update_found id u found)
      (λ _. pure false)

unfoldable pub query_task_by_id : String → Action (Option TaskExecution)
unfolding external
query_task_by_id id =
    try_except (do external; gets (λ w. find (has_id id) w.session)) (λ _. pure none)

-- The rows come in the order of insertion, which is that of `created_at`.
unfoldable pub query_tasks_by_parent_id : String → Action (List TaskExecution)
unfolding external
query_tasks_by_parent_id parent =
    try_except (do external; gets (λ w. select (λ t. t.parent_task_id == parent) w.session))
      (λ _. pure [])

unfoldable pub commit : Action Unit
unfolding external
commit = do external; modify (λ w. record w { committed = w.session })

-- A new session, and one that is closed with no commit, sees what is durable.
unfoldable pub open_session : Action Unit
open_session = modify (λ w. record w { session = w.committed })

-- `async with async_session() as db`: what the body did not commit is gone at its end.
module _ {A : Type 0} where
  unfoldable pub with_session : Action A → Action A
  unfolding open_session
  with_session body = do
    open_session
    a ← try_except body (λ e. open_session >> throw e)
    open_session
    pure a
