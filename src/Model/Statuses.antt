-- ===== src/Model/Statuses.antt =====
-- Task statuses, and the texts that the code stores as error messages.
-- A status column or field holds one of the six words that the code writes; `other` is any other
-- text, the empty text of an absent field included.
use vanguard_runner.Base.{ℕ, String, Bool, true, false, not, ◌==◌, Option}

pub data Status : Type 0 where
  pending running success failed timeout cancelled : Status
  other : String → Status

-- `status == "pending"`
abbrev pub is_pending : Status → Bool
is_pending pending = true
is_pending _ = false

abbrev pub is_running : Status → Bool
is_running running = true
is_running _ = false

-- `WorkflowService.RETRYABLE_STATUSES`
abbrev pub is_retryable : Status → Bool
is_retryable failed = true
is_retryable timeout = true
is_retryable cancelled = true
is_retryable _ = false

-- The list that the Worker tests before it runs a task: `running` and the terminal statuses.
abbrev pub is_claimed : Status → Bool
is_claimed pending = false
is_claimed (other s) = false
is_claimed _ = true

-- `Message` is an f-string of the source by its arguments; `text` is any other text, such as the
-- `str(e)` of an exception.
pub data Message : Type 0 where
  text : String → Message
  retry_dispatch_failed : Message → Message
  retry_dispatch_failed_for : ℕ → Message
  kafka_dispatch_failed_for : ℕ → Message
  kafka_dispatch_aborted : Message → Message
  task_timeout_after : ℕ → Message
  unsupported_task_type : String → Message
  empty_workflow : Option ℕ → Message
  workflow_lacks_fields : Option ℕ → Message
  no_task_created : Message
  save_failed : String → Message
  batch_save_failed : String → Message

abbrev pub blank : Message
blank = text ""

abbrev pub cancelled_before_execution : Message
cancelled_before_execution = text "Task cancelled before execution"

-- Python's truth value of a text
abbrev pub is_set : Message → Bool
is_set (text s) = not (s == "")
is_set _ = true
