-- ===== src/Master/Submit.antt =====
-- `submit_single_workflow` and `submit_batch_workflows` of WorkflowService.
pub mod Single
use vanguard_runner.Base.{ℕ, String, true, ◌==◌, none, List, [], ◌∷◌, length, if◌then◌else◌}
use vanguard_runner.Model.{
  Json, obj, Fields, pending, no_task_created, save_failed, Task, Action, pure, throw, ◌>>=◌, ◌>>◌,
  value_error, runtime_error,
}
use vanguard_runner.Database.{NewTask, save_task, commit}
use vanguard_runner.Redis.{set_task_status, status_write}
use vanguard_runner.Kafka.{TaskInfo, send_task}
use vanguard_runner.Master.Compensation.{get_redis_client, get_kafka_producer}
use vanguard_runner.Master.Splitter.{
  draw, split_batch_workflow, create_workflow_task, validate_workflow_data,
}

-- the arguments of `save_task` for a task of the splitter
abbrev pub new_task : Task → NewTask
new_task t = record {
  task_id = t.task_id;
  parent_task_id = t.parent_task_id;
  task_type = t.task_type;
  priority = t.priority;
  status = pending;
  payload = t.payload;
  created_by = t.created_by;
}

-- the message of a task of the splitter, with no retry keys
abbrev pub task_info : Task → TaskInfo
task_info t = record {
  task_id = t.task_id;
  parent_task_id = t.parent_task_id;
  task_type = t.task_type;
  priority = t.priority;
  payload = t.payload;
  created_by = t.created_by;
  retry_count = none;
  max_retries = none;
  timeout_seconds = none;
  use_workflow_topic = true;
}

pub record BatchSubmit : Type 0 where
  pub tracer_id : String
  pub total_tasks : ℕ
  pub tasks : List Task

module _ (uuid : ℕ → String) (lower : String → String) where
  -- The result is the task's id, which is the tracer's id too.
  unfoldable pub submit_single_workflow : Json → Fields → Json → String → Action String
  submit_single_workflow run_id workflow variables author = do
    validate_workflow_data workflow none
    task ← create_workflow_task uuid lower (obj workflow) run_id variables "normal" author
    saved ← save_task (new_task task)
    if saved then pure tt else throw (runtime_error (save_failed task.task_id))
    commit
    get_redis_client
    set_task_status task.task_id (status_write pending 0)
    get_kafka_producer
    sent ← send_task (task_info task)
    pure task.task_id

  unfoldable pub require_tasks : List Task → Action Unit
  require_tasks [] = throw (value_error no_task_created)
  require_tasks (t ∷ ts) = pure tt

  unfoldable pub submit_batch_workflows : List Fields → String → String → Json → Action BatchSubmit
  unfolding require_tasks
  submit_batch_workflows workflows priority author report_id = do
    tracer_id ← draw uuid
    tasks ←
        split_batch_workflow uuid lower workflows (if priority == "" then "normal" else priority)
          author tracer_id report_id
    require_tasks tasks
    get_redis_client
    set_task_status tracer_id (status_write pending 0)
    pure (record { tracer_id = tracer_id; total_tasks = length tasks; tasks = tasks })
