-- ===== src/Model/Rows.antt =====
-- A row of the table task_execution (apps/master/domain/models/task_execution.py), a task as the
-- splitter makes it, the payload, and a record on a Kafka topic.
use vanguard_runner.Base.{ℕ, String, Option}
use vanguard_runner.Model.Statuses.{Status, Message}
use vanguard_runner.Model.Values.{Fields}

-- The payload is a JSON object.
abbrev pub Payload : Type 0
Payload = Fields

-- Columns that may be NULL are options. `datetime` values are instants on one clock.
pub record TaskExecution : Type 0 where
  pub task_id : String
  pub parent_task_id : String
  pub task_type : String
  pub priority : String
  pub status : Status
  pub payload : Payload
  pub worker_id : Option String
  pub progress : ℕ
  pub retry_count : Option ℕ
  pub max_retries : Option ℕ
  pub timeout_seconds : Option ℕ
  pub error_message : Option Message
  pub created_by : String
  pub created_at : ℕ
  pub started_at : Option ℕ
  pub finished_at : Option ℕ

-- the dataclass `Task` of the splitter
pub record Task : Type 0 where
  pub task_id : String
  pub parent_task_id : String
  pub task_type : String
  pub priority : String
  pub payload : Payload
  pub created_at : ℕ
  pub created_by : String

-- the message that `TaskProducer` serialises, with its topic
pub record TaskMessage : Type 0 where
  pub topic : String
  pub task_id : String
  pub parent_task_id : String
  pub task_type : String
  pub priority : String
  pub payload : Payload
  pub created_at : ℕ
  pub created_by : String
  pub retry_count : ℕ
  pub max_retries : ℕ
  pub timeout_seconds : ℕ
