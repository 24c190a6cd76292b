-- ===== src/Engine/Streaming/Progress.antt =====
-- What the last event of a stream tells, against the events before it (packages/engine/src/core/streaming_executor.py).
use vanguard_runner.Base.{ℕ, ◌+◌, ◌<◌, String, Bool, true, false, List, [], ◌∷◌, ◌++◌, count, ◌≡◌}
use vanguard_runner.Engine.Services.{Services}
use vanguard_runner.Engine.Streaming.{
  Event, workflow_start, execution_plan, node_skipped, node_start, node_output, node_end,
  node_error, workflow_error, workflow_end, Ending, went_through, failed_at, broken, Streamed,
}

abbrev pub is_end : Event → Bool
is_end (node_end id type done total) = true
is_end (node_skipped id type) = false
is_end (workflow_start w n) = false
is_end (execution_plan ids n) = false
is_end (node_start id type done total) = false
is_end (node_output id type v) = false
is_end (node_error id type e v) = false
is_end (workflow_error id e done total v) = false
is_end (workflow_end w done total) = false

abbrev pub is_skip : Event → Bool
is_skip (node_skipped id type) = true
is_skip (node_end id type done total) = false
is_skip (workflow_start w n) = false
is_skip (execution_plan ids n) = false
is_skip (node_start id type done total) = false
is_skip (node_output id type v) = false
is_skip (node_error id type e v) = false
is_skip (workflow_error id e done total v) = false
is_skip (workflow_end w done total) = false

-- an event that is the last of a list
abbrev pub LastEvent : Event → List Event → Type 0
LastEvent e es = (front : List Event) × (es ≡ front ++ (e ∷ []))

-- What an ending says against the events, for a number of nodes after `before` completed ones: the
-- number of completed nodes is that of the `node_end` events; a loop that went through all nodes
-- ended or skipped each of them, another one ended or skipped fewer.
abbrev AddsUp : ℕ → ℕ → ℕ → ℕ → Ending → Type 0
AddsUp before nodes ends skips (went_through done c) =
    (done ≡ before + ends) × (ends + skips ≡ nodes)
AddsUp before nodes ends skips (failed_at id e done v c) =
    (done ≡ before + ends) × (ends + skips < nodes)
AddsUp before nodes ends skips (broken e) = ends + skips < nodes

abbrev Progress : ℕ → ℕ → Streamed → Type 0
Progress before nodes r =
    AddsUp before nodes (count is_end r.events) (count is_skip r.events) r.ending

-- what the last event of a stream tells, by how the stream ended, for an order of `nodes` nodes
abbrev pub Tells : String → ℕ → Streamed → Ending → Type 0
Tells workflow nodes r (went_through done c) =
    LastEvent (workflow_end workflow (count is_end r.events) nodes) r.events
    × (count is_end r.events + count is_skip r.events ≡ nodes)
Tells workflow nodes r (failed_at id e done v c) =
    LastEvent (workflow_error id e (count is_end r.events) nodes v) r.events
    × (count is_end r.events + count is_skip r.events < nodes)
Tells workflow nodes r (broken e) = count is_end r.events + count is_skip r.events < nodes
