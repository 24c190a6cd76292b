-- ===== src/Model/Stores.antt =====
-- The stores that the processes share, and the outcomes of the calls to them.
use vanguard_runner.Base.{ℕ, String, Option, List, []}
use vanguard_runner.Model.Statuses.{Status, Message}
use vanguard_runner.Model.Values.{Json}
use vanguard_runner.Model.Rows.{TaskExecution, TaskMessage}

-- The text of an instant: the empty text, or its `isoformat()`.
pub data Stamp : Type 0 where
  never : Stamp
  at : ℕ → Stamp

-- The hash `task:{task_id}`: a field that was never written is `none`, and `expires` is the time to
-- live in seconds, `none` for a key that never expires.
pub record TaskHash : Type 0 where
  pub status : Option Status
  pub progress : Option ℕ
  pub worker_id : Option String
  pub started_at : Option Stamp
  pub finished_at : Option Stamp
  pub retry_count : Option ℕ
  pub error_message : Option Message
  pub result : Option Json
  pub expires : Option ℕ

-- The hash `worker:{worker_id}`, as far as the code reads it back.
pub record WorkerHash : Type 0 where
  pub status : Option String
  pub current_tasks : Option ℕ

-- An exception: one that the code raises, or one from a store or broker with its text.
pub data Exception : Type 0 where
  value_error : Message → Exception
  runtime_error : Message → Exception
  fault : String → Exception

pub data Outcome (A : Type 0) : Type 0 where
  return : A → Outcome A
  raise : Exception → Outcome A

-- A committed position of the consumer group: the next offset to read of one partition.
pub record Offset : Type 0 where
  pub topic : String
  pub partition : ℕ
  pub position : ℕ

-- `session` is what the open database session sees, `committed` what is durable. `sent` holds the
-- records that Kafka has acknowledged, `background` the sends that `asyncio.create_task` started, and
-- `offsets` the commits of the consumers, oldest first.
-- `faults` says how the next calls of a store or broker end: `some text` is a raised exception, and
-- past the end of the list every call succeeds. `fresh` counts the uuids drawn.
pub record World : Type 0 where
  pub committed : List TaskExecution
  pub session : List TaskExecution
  pub redis : String → Option TaskHash
  pub workers : List (String × WorkerHash)
  pub sent : List TaskMessage
  pub background : List TaskMessage
  pub offsets : List Offset
  pub faults : List (Option String)
  pub clock : ℕ
  pub fresh : ℕ

-- The same world, with stores and a broker that do not fail.
abbrev pub calm : World → World
calm w = record w { faults = [] }
