-- ===== src/Master/Dispatch/Delivery.antt =====
-- What `process_batch_tasks_async` leaves in the stores where they do not fail.
use vanguard_runner.Base.{ℕ, String, List, [], ◌∷◌, ◌++◌, map, Option, some}
use vanguard_runner.Model.{pending, Task, TaskExecution, TaskHash, TaskMessage, World, calm}
use vanguard_runner.Database.{row_of}
use vanguard_runner.Redis.{at_key, write_mapping, status_write}
use vanguard_runner.Kafka.{SendResult, add_success, message_for}
use vanguard_runner.Master.Submit.{new_task, task_info}

-- the row and the message of a task
abbrev pub new_row : ℕ → Task → TaskExecution
new_row now t = row_of (new_task t) now

abbrev pub new_message : ℕ → Task → TaskMessage
new_message now t = message_for (task_info t) now

-- the hash of a task that is seeded, over what its key held
abbrev pub seeded_hash : TaskHash → TaskHash
seeded_hash h = record (write_mapping (status_write pending 0) h) { expires = some 86400 }

abbrev pub seeded : List Task → (String → Option TaskHash) → String → Option TaskHash
seeded [] redis = redis
seeded (t ∷ ts) redis = seeded ts (at_key t.task_id seeded_hash redis)

-- A calm world after tasks have been saved, seeded and sent.
abbrev pub dispatched : List Task → World → World
dispatched ts w = record (calm w) {
  committed = w.committed ++ map (new_row w.clock) ts;
  session = w.committed ++ map (new_row w.clock) ts;
  redis = seeded ts w.redis;
  sent = w.sent ++ map (new_message w.clock) ts;
}

abbrev all_sent : ℕ → SendResult → List Task → SendResult
all_sent now r [] = r
all_sent now r (t ∷ ts) = all_sent now (add_success r (new_message now t)) ts

-- A calm world whose session sees what is durable.
abbrev pub fresh_world : World → World
fresh_world w = record (calm w) { session = w.committed }
