-- ===== src/Kafka.antt =====
-- TaskProducer (packages/shared/infrastructure/kafka_producer.py). The broker's `send_and_wait` is
-- a call that may raise; a record that it acknowledges is in `sent`.
pub mod Batch
pub mod Messages
use vanguard_runner.Base.{
  ℕ, ◌+◌, String, Bool, true, false, ◌==◌, Option, none, some, List, [], ◌∷◌, ◌++◌, if◌then◌else◌,
}
use vanguard_runner.Model.{
  Message, blank, Payload, TaskMessage, World, Action, pure, gets, modify, ◌>>=◌, ◌>>◌, Exception,
  message_of, try_except, external,
}

-- `_get_topic`
unfoldable pub get_topic : String → Bool → String
get_topic priority true =
    if priority == "urgent"
    then "task-workflow-urgent"
    else if priority == "high"
    then "task-workflow-high"
    else "task-workflow-normal"
get_topic priority false =
    if priority == "urgent"
    then "task-urgent"
    else if priority == "high"
    then "task-high"
    else "task-normal"

-- The arguments of `send_task`, and one entry of `send_tasks_batch`, whose last four keys may be
-- missing.
pub record TaskInfo : Type 0 where
  pub task_id : String
  pub parent_task_id : String
  pub task_type : String
  pub priority : String
  pub payload : Payload
  pub created_by : String
  pub retry_count : Option ℕ
  pub max_retries : Option ℕ
  pub timeout_seconds : Option ℕ
  pub use_workflow_topic : Bool

abbrev pub get_or : Option ℕ → ℕ → ℕ
get_or none d = d
get_or (some n) d = n

-- the topic and the message of a task, with the defaults 0, 3 and 300
unfoldable pub message_for : TaskInfo → ℕ → TaskMessage
unfolding get_topic
message_for t now = record {
  topic = get_topic t.priority t.use_workflow_topic;
  task_id = t.task_id;
  parent_task_id = t.parent_task_id;
  task_type = t.task_type;
  priority = t.priority;
  payload = t.payload;
  created_at = now;
  created_by = t.created_by;
  retry_count = get_or t.retry_count 0;
  max_retries = get_or t.max_retries 3;
  timeout_seconds = get_or t.timeout_seconds 300;
}

-- `send_task` hands the send to `asyncio.create_task` and returns at once.
unfoldable pub send_task : TaskInfo → Action Bool
send_task t = do
  now ← gets (λ w. w.clock)
  modify (λ w. record w { background = w.background ++ message_for t now ∷ [] })
  pure true

-- `_send_task_async`, which the event loop runs later; nobody awaits its exception.
unfoldable pub send_task_async : TaskMessage → Action Unit
unfolding external
send_task_async m = do external; modify (λ w. record w { sent = w.sent ++ m ∷ [] })

-- the event loop reaches the oldest send in the background
unfoldable pub run_background : List TaskMessage → Action Unit
unfolding send_task_async
run_background [] = pure tt
run_background (m ∷ rest) = do
  modify (λ w. record w { background = rest })
  try_except (send_task_async m) (λ _. pure tt)

-- One entry of `details`: `delivered` says "success" or "failed", and `error` is blank on success.
pub record Detail : Type 0 where
  pub task_id : String
  pub delivered : Bool
  pub topic : String
  pub error : Message

pub record SendResult : Type 0 where
  pub success : ℕ
  pub failed : ℕ
  pub details : List Detail

abbrev pub nothing_sent : SendResult
nothing_sent = record { success = 0; failed = 0; details = [] }

abbrev pub add_success : SendResult → TaskMessage → SendResult
add_success r m = record {
  success = r.success + 1;
  failed = r.failed;
  details =
      r.details
      ++ record { task_id = m.task_id; delivered = true; topic = m.topic; error = blank } ∷ [];
}

abbrev pub add_failure : SendResult → TaskMessage → Exception → SendResult
add_failure r m e = record {
  success = r.success;
  failed = r.failed + 1;
  details =
      r.details
      ++ record { task_id = m.task_id; delivered = false; topic = m.topic; error = message_of e }
        ∷ [];
}

-- the body of the loop
unfoldable pub send_one : SendResult → TaskInfo → Action SendResult
unfolding external
send_one r t = do
  now ← gets (λ w. w.clock)
  try_except
      (do
        external
        modify (λ w. record w { sent = w.sent ++ message_for t now ∷ [] })
        pure (add_success r (message_for t now)))
      (λ e. pure (add_failure r (message_for t now) e))

unfoldable pub send_each : SendResult → List TaskInfo → Action SendResult
send_each r [] = pure r
send_each r (t ∷ ts) = do r' ← send_one r t; send_each r' ts

unfoldable pub send_tasks_batch : List TaskInfo → Action SendResult
send_tasks_batch tasks = send_each nothing_sent tasks
