-- ===== src/Worker/Consumer.antt =====
-- `consume_tasks` (apps/worker/runtime/main.py): one poll of the workflow topics. A poll gives each
-- partition's messages; a message whose value is no JSON has no task. The tasks that are started run
-- on their own, as Worker/Slots says: what they do between the steps of the poll is left out.
pub mod Sorting
pub mod Starts
pub mod Topics
use vanguard_runner.Base.{
  ℕ, ◌+◌, ◌-◌, String, Bool, true, false, not, ◌==◌, leb, ltb, min, Option, none, some, List, [],
  ◌∷◌, ◌++◌, map, length, if◌then◌else◌,
}
use vanguard_runner.Model.{
  text, TaskExecution, World, Offset, Action, pure, throw, gets, modify, ◌>>=◌, ◌>>◌, value_error,
  try_except, external,
}
use vanguard_runner.Worker.Execution.{TaskData}
use vanguard_runner.Worker.Slots.{Received, next_offset, read_status, is_claimed_already}

abbrev pub topics : List String
topics = "task-workflow-urgent" ∷ "task-workflow-high" ∷ "task-workflow-normal" ∷ []

-- One message of a poll, with the task that its value decodes to.
pub record Polled : Type 0 where
  pub received : Received
  pub decoded : Option TaskData

-- `max_records` of a poll
unfoldable pub max_fetch : ℕ → ℕ → ℕ
max_fetch max_concurrent current_running =
    let free = max_concurrent - current_running in min (if leb free 1 then 1 else free) 5

-- What a poll does with a message: it starts its task, or it marks the message for the commit.
pub data Verdict : Type 0 where
  started : TaskData → Verdict
  skipped : Verdict

unfoldable pub judge_decoded : Option TaskData → Action Verdict
unfolding read_status
judge_decoded none = throw (value_error (text "Expecting value"))
judge_decoded (some d) = if not (d.task_type == "workflow") then pure skipped else (do
  status ← read_status d.task_id
  pure (if is_claimed_already status then skipped else started d))

-- the body of the inner loop; an exception marks the message too
unfoldable pub judge_message : Polled → Action Verdict
unfolding judge_decoded
judge_message m = try_except (judge_decoded m.decoded) (λ _. pure skipped)

-- The tasks that a partition's messages start, and the messages marked for the commit.
pub record Sorted : Type 0 where
  pub tasks : List (Polled × TaskData)
  pub marked : List Polled

abbrev pub sort_one : Polled → Verdict → Sorted → Sorted
sort_one m (started d) s = record s { tasks = (m, d) ∷ s.tasks }
sort_one m skipped s = record s { marked = m ∷ s.marked }

unfoldable pub sort_messages : List Polled → Action Sorted
unfolding judge_message
sort_messages [] = pure (record { tasks = []; marked = [] })
sort_messages (m ∷ ms) = do v ← judge_message m; s ← sort_messages ms; pure (sort_one m v s)

abbrev pub last : List Polled → Option Polled
last [] = none
last (m ∷ []) = some m
last (m ∷ n ∷ ms) = last (n ∷ ms)

-- the entry of `offsets` for one partition, where it has a marked message
abbrev pub offset_after : Option Polled → List Offset
offset_after none = []
offset_after (some m) = next_offset m.received ∷ []

unfoldable pub sort_partitions : List (List Polled) → Action (List Sorted)
unfolding sort_messages
sort_partitions [] = pure []
sort_partitions (p ∷ ps) = do s ← sort_messages p; rest ← sort_partitions ps; pure (s ∷ rest)

abbrev pub offsets_of : List Sorted → List Offset
offsets_of [] = []
offsets_of (s ∷ rest) = offset_after (last s.marked) ++ offsets_of rest

abbrev pub tasks_of_round : List Sorted → List (Polled × TaskData)
tasks_of_round [] = []
tasks_of_round (s ∷ rest) = s.tasks ++ tasks_of_round rest

-- `if offsets: await consumer.commit(offsets=offsets)`, in a `try`
unfoldable pub commit_offsets : List Offset → Action Unit
unfolding external
commit_offsets [] = pure tt
commit_offsets (o ∷ os) =
    try_except (do external; modify (λ w. record w { offsets = w.offsets ++ o ∷ os }))
      (λ _. pure tt)

-- What a poll gives: the tasks that it starts, and the time of the last periodic commit.
pub record Round : Type 0 where
  pub tasks : List (Polled × TaskData)
  pub last_commit : ℕ

-- `await consumer.commit()` and `last_commit_time = current_time`
unfoldable pub commit_all : List Offset → ℕ → Action ℕ
unfolding external
commit_all positions now = do
  external
  modify (λ w. record w { offsets = w.offsets ++ positions })
  pure now

-- `if current_time - last_commit_time > 10`, with the commit in a `try`
unfoldable pub commit_if_due : List Offset → ℕ → ℕ → Action ℕ
unfolding commit_all
commit_if_due positions last_commit now =
    if ltb (last_commit + 10) now
    then try_except (commit_all positions now) (λ _. pure last_commit)
    else pure last_commit

unfoldable pub commit_positions : List Offset → ℕ → Action ℕ
unfolding commit_if_due
commit_positions positions last_commit = do
  now ← gets (λ w. w.clock)
  commit_if_due positions last_commit now

-- `if messages_received > 0: continue`, and what follows it
unfoldable pub end_round : List Offset → ℕ → List (Polled × TaskData) → Action Round
unfolding commit_positions
end_round positions last_commit [] = do
  now ← commit_positions positions last_commit
  pure (record { tasks = []; last_commit = now })
end_round positions last_commit (t ∷ ts) =
    pure (record { tasks = t ∷ ts; last_commit = last_commit })

-- One poll. `positions` is what Kafka's client commits where no offsets are given: its positions in
-- all partitions.
unfoldable pub consume_round : List Offset → ℕ → List (List Polled) → Action Round
unfolding sort_partitions commit_offsets end_round
consume_round positions last_commit polled = do
  sorted ← sort_partitions polled
  commit_offsets (offsets_of sorted)
  end_round positions last_commit (tasks_of_round sorted)

-- The attempts to connect, at most three; `some e` is an exception of `consumer.start()`. The answer
-- is the number of the attempt that succeeded.
unfoldable pub connect : ℕ → List (Option String) → Option ℕ
connect attempt [] = some (attempt + 1)
connect attempt (none ∷ rest) = some (attempt + 1)
connect attempt (some e ∷ rest) =
    let later = connect (attempt + 1) rest in if leb 3 (attempt + 1) then none else later
