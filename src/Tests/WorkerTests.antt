-- ===== src/Tests/WorkerTests.antt =====
-- The theorems on the Worker, its callback and the reporting routes at sample data.
use vanguard_runner.Base.{
  ℕ, zero, suc, ◌≡◌, refl, String, true, Option, none, some, List, [], ◌∷◌, count, arith,
}
use vanguard_runner.Model.{
  Task, running, pending, success, blank, end, str, TaskExecution, World, calm, Action, pure,
}
use vanguard_runner.Model.Post.{Returns}
use vanguard_runner.Redis.{no_hash, put_progress, update_task_field}
use vanguard_runner.Worker.Recovery.{recover_stale_running_tasks}
use vanguard_runner.Worker.Recovery.Safety.{
  RecoversStale, recover_stale_running_tasks-RecoversStale,
}
use vanguard_runner.Worker.Execution.{TaskData, RunResult, execute_task}
use vanguard_runner.Worker.Execution.Settled.{TaskSettled, execute_task-TaskSettled}
use vanguard_runner.Worker.Slots.{Received, next_offset, execute_task_with_semaphore}
use vanguard_runner.Worker.Slots.Claims.{OnlyCommits, execute_task_with_semaphore-OnlyCommits}
use vanguard_runner.Worker.Slots.Balance.{
  Counts, update_task_field-KeepsCount, execute_task_with_semaphore-Counts,
}
use vanguard_runner.Worker.Consumer.{Polled, consume_round}
use vanguard_runner.Worker.Consumer.Starts.{RoundReport, consume_round-RoundReport}
use vanguard_runner.Callback.Delivery.{Attempt, responded, client_error, timed_out, send_request}
use vanguard_runner.Callback.Delivery.Retries.{Ends, send_request-Ends}
use vanguard_runner.Callback.Batches.{StepModel, LogModel, payloads}
use vanguard_runner.Callback.Batches.Cover.{Covers, payloads-Covers}
use vanguard_runner.Routes.Stream.{Poll, nothing, snapshot, raises, stream_workflow_status}
use vanguard_runner.Routes.Stream.Ending.{is_end, stream_workflow_status-once}
use vanguard_runner.Routes.Tallies.Laws.{Described, batch_status-Described}
use vanguard_runner.Kafka.{message_for}
use vanguard_runner.Master.Submit.{task_info}
use vanguard_runner.Worker.Consumer.Topics.{is_read, message_for-is_read}
use vanguard_runner.Tests.Samples.{task_row, rows, world}

-- a task that a worker, which is no longer listed, started at the instant 5
abbrev lost_row : TaskExecution
lost_row = record (task_row "d" running 0) { worker_id = some "worker-1"; started_at = some 5 }

-- the clock is past the age of 90 seconds, and the first write of the round fails
abbrev late_world : World
late_world = record world {
  committed = lost_row ∷ rows;
  session = lost_row ∷ rows;
  workers = ("worker-2", record { status = some "busy"; current_tasks = some 1 }) ∷ [];
  faults = none ∷ none ∷ none ∷ none ∷ some "redis is down" ∷ [];
  clock = 200;
}

recover_stale_running_tasks-RecoversStale_example :
    Returns
      (recover_stale_running_tasks 90 late_world)
      (λ _ w. RecoversStale 110 late_world.workers late_world.committed w.committed)
recover_stale_running_tasks-RecoversStale_example =
    recover_stale_running_tasks-RecoversStale 90 late_world (refl, (refl, (refl, (refl, tt))))

abbrev task_a : TaskData
task_a = record {
  task_id = "a";
  task_type = "workflow";
  parent_task_id = some "batch";
  payload = end;
}

-- a success of 51 steps
abbrev long_run : RunResult
long_run = record {
  success = true;
  result = str "done";
  total_steps = 51;
  error = blank;
  message = blank;
}

abbrev engine : TaskData → Action (Option RunResult)
engine d = pure (some long_run)

abbrev callback : TaskData → RunResult → Action Unit
callback d r = pure tt

execute_task-TaskSettled_example :
    Returns
      (execute_task engine true callback "worker-2" task_a (calm world))
      (λ _ v. TaskSettled "a" long_run 9 v)
execute_task-TaskSettled_example =
    execute_task-TaskSettled engine true callback "worker-2" task_a refl long_run (λ v. refl)
      (λ v. refl) world (task_row "a" pending 0) refl

abbrev in_time : TaskData → Option (World → World)
in_time d = none

abbrev message_a : Received
message_a = record { topic = "task-workflow-high"; partition = 0; offset = 7 }

abbrev half_done : String → TaskData → Action Unit
half_done worker d = update_task_field d.task_id (put_progress 50)

-- the task "a" is running elsewhere, and the commit of its offset fails
abbrev claimed_world : World
claimed_world = record world {
  redis = λ k. some (record no_hash { status = some running });
  faults = none ∷ some "kafka is down" ∷ [];
}

execute_task_with_semaphore-OnlyCommits_example :
    Returns
      (execute_task_with_semaphore 3600 half_done in_time "worker-2" task_a
        (some message_a)
        claimed_world)
      (λ _. OnlyCommits (some message_a) claimed_world)
execute_task_with_semaphore-OnlyCommits_example =
    execute_task_with_semaphore-OnlyCommits 3600 half_done in_time "worker-2" task_a
      (some message_a) claimed_world running refl refl tt

execute_task_with_semaphore-Counts_example :
    Returns
      (execute_task_with_semaphore 3600 half_done in_time "worker-2" task_a
        (some message_a)
        (calm late_world))
      (λ _. Counts "worker-2" 1)
execute_task_with_semaphore-Counts_example =
    execute_task_with_semaphore-Counts 3600 half_done in_time "worker-2" task_a (some message_a)
      (update_task_field-KeepsCount "worker-2" "a" (put_progress 50))
      (λ f v n e c. absurd (ground arith)) late_world refl

-- a message that starts a task, and one that does not decode
abbrev polled : List (List Polled)
polled =
    (record { received = message_a; decoded = some task_a }
      ∷ record { received = record message_a { offset = 8 }; decoded = none }
      ∷ [])
    ∷ []

consume_round-RoundReport_example :
    Returns
      (consume_round (next_offset message_a ∷ []) 5 polled world)
      (RoundReport (next_offset message_a ∷ []) 5 polled world)
consume_round-RoundReport_example =
    consume_round-RoundReport (next_offset message_a ∷ []) 5 polled world

-- a network error, a timeout, and then a status 201
abbrev responses : ℕ → Attempt
responses zero = client_error "refused"
responses (suc zero) = timed_out
responses _ = responded 201 "ok"

send_request-Ends_example : Ends 30 (λ s. s) responses 0 3 (send_request 30 (λ s. s) responses 3)
send_request-Ends_example = send_request-Ends 30 (λ s. s) responses 3

abbrev step : String → StepModel
step id = record { step_id = id; title = id }

abbrev three_steps : List StepModel
three_steps = step "x" ∷ step "y" ∷ step "z" ∷ []

abbrev one_log : List LogModel
one_log = record { run_step_id = "y"; content = "hello" } ∷ []

payloads-Covers_example : Covers three_steps one_log 2 (payloads three_steps one_log 2)
payloads-Covers_example = payloads-Covers three_steps one_log 2 (omega arith)

abbrev polls : List Poll
polls =
    nothing
    ∷ snapshot running 10 1 []
    ∷ snapshot success 100 2 (record { node = "n"; status = "SUCCESS" } ∷ [])
    ∷ raises "redis is down"
    ∷ []

stream_workflow_status-once_example : count is_end (stream_workflow_status polls) ≡ 1
stream_workflow_status-once_example = stream_workflow_status-once polls

batch_status-Described_example : Described rows
batch_status-Described_example = batch_status-Described rows (refl, (refl, (refl, tt)))

abbrev sample_task : Task
sample_task = record {
  task_id = "n";
  parent_task_id = "batch";
  task_type = "workflow";
  priority = "urgent";
  payload = end;
  created_at = 9;
  created_by = "jan";
}

message_for-is_read_example : is_read (message_for (task_info sample_task) 9).topic ≡ true
message_for-is_read_example = message_for-is_read (task_info sample_task) 9
