-- ===== src/Lib.antt =====
-- The runner executes workflows for a test platform. Its Master takes workflows over HTTP, keeps
-- one row per task in a database, one hash per task in Redis, and puts one message per task on a
-- Kafka topic. Its Workers read the topics, run each workflow in an engine, write what happens to
-- Redis and to the row, and report the result to a callback URL. This library models the Master,
-- the Worker, the engine's execution of a workflow, and what they share.
--
-- How the parts meet: Master and Worker share no memory. They meet in the world of Model/Stores:
-- `committed` (the durable rows), `session` (what an open database session sees), `redis`,
-- `workers` (the hashes of workers), `sent` and `background` (records that Kafka has, and sends
-- that are not awaited) and `offsets` (commits of the consumers). An operation is an action, a
-- function from a world to an outcome (a value or an exception) and a world; what was written
-- before an exception stays written.
--
-- Failures: every call of a store or broker takes the next entry of the world's `faults`, which
-- says whether the call raises. A theorem over all worlds is so a theorem over all schedules of
-- failures; `calm` is the world whose stores do not fail, and past the end of the schedule no call
-- fails. A call that raises has changed nothing. Time is one clock that stands still within an
-- operation; keys in Redis do not expire by themselves.
--
-- Which file models which part:
-- - Base: Boolean tests on numbers and texts, lists over the native numbers, search and update in
--   a list.
-- - Model: statuses and messages (Statuses), JSON (Values), the row and the Kafka record (Rows),
--   the world (Stores), actions (Effects), rules for invariants (Frame) and for postconditions
--   (Post).
-- - Database: apps/master/infrastructure/db/repositories/task_repository.py: save_task,
--   update_task_status, query_task_by_id, query_tasks_by_parent_id, and the commit of the session.
--   Database/Rows has the lemmas on rows by their key.
-- - Redis: packages/shared/infrastructure/redis_client.py: set_task_status, get_task_status,
--   update_task_field, get_all_workers.
-- - Kafka: packages/shared/infrastructure/kafka_producer.py: _get_topic, send_task,
--   _send_task_async, send_tasks_batch.
-- - Master: apps/master/application/use_cases/task_splitter.py (Splitter) and
--   apps/master/application/services/workflow_service.py: cancel_task and cancel_batch_tasks
--   (Cancel), retry_task (Retry), retry_batch_tasks (RetryBatch), submit_single_workflow and
--   submit_batch_workflows (Submit), process_batch_tasks_async (Dispatch), and the helpers that
--   mark failed dispatches (Compensation).
-- - Routes: apps/master/api/routes/task_router.py and apps/master/api/routes/workflow_router.py:
--   batch and queue status (Tallies), the status of a task, cancel and retry (Tasks), the event
--   stream (Stream).
-- - Worker/Store: apps/worker/infrastructure/db/task_status_store.py and
--   apps/worker/infrastructure/redis/master_gateway.py.
-- - Engine/Steps, Engine/Graph: packages/engine/src/models/execution.py (results and their
--   dictionaries) and packages/engine/src/models/workflow.py (edges, the graph, validation).
-- - Engine/Services, Engine/Branches, Engine/Outputs, Engine/Run: WorkflowExecutor.execute and
--   _finalize_failure of packages/engine/workflow_engine.py over the context of
--   packages/engine/src/context.py. `Services` holds what they call; `check_node` is should_skip
--   (a node that runs is `active`, one that is skipped `inactive`), `run_node` the body of the
--   loop for a node that runs, `run_order` the loop.
-- - Engine/Streaming: packages/engine/src/core/streaming_executor.py.
-- - Engine/Loops: the count and while loops of
--   packages/engine/src/core/processors/workflow/loop_processor.py. A while loop recurses on the
--   iterations that its limit leaves, so that the limit itself is the bound.
-- - Settings: packages/shared/settings/runtime.py (Merge, Database) and
--   apps/master/api/routes/auth_guard.py (Guard).
-- - Worker/Outputs, Worker/Results: apps/worker/executors/workflow_executor.py, from the engine's
--   result to the reported one.
-- - Worker/Recovery, Worker/Consumer, Worker/Slots, Worker/Execution: recover_stale_running_tasks,
--   consume_tasks, execute_task_with_semaphore, and execute_task with execute_task_async, of
--   apps/worker/runtime/main.py.
-- - Callback: apps/worker/infrastructure/callback/callback_service.py: _send_request (Delivery)
--   and _send_batch_callback (Batches).
-- - Tests: sample worlds and each theorem at an input that meets its hypotheses.
--
-- Reading the definitions: a numeral or text that the code formats into an error message is kept
-- as the arguments of the message's constructor. Log lines are left out. A chain of early returns
-- is a helper by clauses on what was found (`cancel_found`, `retry_found`, `status_reply`). Loops
-- are structural recursion over the list that they run over. Those that do not run over a list are
-- the engine's count and while loops, by their number of iterations, and: the slices of
-- process_batch_tasks_async, (n + 99) / 100 rounds, which is the length of the source's range; the
-- retries of _send_request, `retry_count` attempts; and the batches of a callback, total_batches
-- of them. The stream polls at most 7200 times, an hour in half seconds.
--
-- Arguments of the model: uuid4 and str.lower in Master/Splitter and Master/Submit; the engine and
-- the callback in Worker/Execution, which a theorem takes to leave the stores alone where it says
-- so; the deadline of a task and what an interrupted run has done by then in Worker/Slots; the end
-- of each HTTP attempt in Callback/Delivery.
--
-- The engine: a Worker runs a workflow in the engine, and reports what Worker/Results makes of its
-- result. networkx gives the order of the nodes and their predecessors, and a processor gives a
-- node's result; both are arguments. A theorem that needs it takes the order to be topological, or
-- the processors to set no node results themselves. No fuel is used: the loop runs over the order.
-- The model is that of a workflow below the Worker's threshold of nodes for shard storage.
--
-- Not modelled: the engine's other processors, its shard storage, template rendering and debugger;
-- the pydantic contracts of packages/contracts; logging, health checks, metrics and signal
-- handling; the connection set-up of the database, Redis and Kafka; the console log stream;
-- floats, where rates and percentages are kept as the numbers that are divided.
pub mod Base
pub mod Model
pub mod Database
pub mod Redis
pub mod Kafka
pub mod Settings
pub mod Engine
pub mod Master
pub mod Routes
pub mod Worker
pub mod Callback
pub mod Tests
