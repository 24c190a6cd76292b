-- ===== src/Engine/Streaming.antt =====
-- `StreamingWorkflowExecutor` (packages/engine/src/core/streaming_executor.py): the events that it
-- yields and its own test of the incoming paths. Timestamps, durations and percentages of the events
-- are left out, and the status of the execution result is told by the ending. `run` is `processor.execute` on a node, the results before it and the context, and
-- `text_of` is `str(value).lower()`.
pub mod Branching
pub mod Progress
use vanguard_runner.Base.{
  ℕ, suc, String, Bool, true, false, Option, none, some, List, [], ◌∷◌, ◌++◌, map, length,
  if◌then◌else◌,
}
use vanguard_runner.Model.{
  Json, null, bool, num, str, arr, obj, Items, nil, cons, Fields, end, field, get_field, has_field,
  truthy,
}
use vanguard_runner.Model.Dicts.{get_json, get_or}
use vanguard_runner.Engine.Services.{
  Node, Context, get_node_result, set_node_result, Raised, Reply, returned, raised, Services,
  node_map,
}
use vanguard_runner.Engine.Branches.{
  Check, Crash, active, inactive, crash, missing_node, or_check, check_of, check_ordinary,
  is_condition, matches, branch_text,
}
use vanguard_runner.Engine.Graph.{distinct}
use vanguard_runner.Engine.Outputs.{text_or, bool_or}
use vanguard_runner.Engine.Run.{predecessor_results}

-- `_extract_branch_value`
module _ (text_of : Json → String) where
  abbrev pub branch_of_dict : Fields → String
  branch_of_dict d =
      if has_field "result" d then branch_text (truthy (get_json "result" d)) else "false"

  abbrev pub branch_of_body : Json → Fields → String
  branch_of_body (obj b) d = elim (get_field "result" b) [
    | some v ↦ branch_text (truthy v)
    | none ↦ branch_of_dict d
  ]
  branch_of_body null d = branch_of_dict d
  branch_of_body (bool b) d = branch_of_dict d
  branch_of_body (num n) d = branch_of_dict d
  branch_of_body (str s) d = branch_of_dict d
  branch_of_body (arr xs) d = branch_of_dict d

  abbrev pub extract_branch_value : Json → String
  extract_branch_value (obj d) = branch_of_body (get_or (obj end) "body" d) d
  extract_branch_value null = "false"
  extract_branch_value (bool b) = text_of (bool b)
  extract_branch_value (num n) = text_of (num n)
  extract_branch_value (str s) = text_of (str s)
  extract_branch_value (arr xs) = text_of (arr xs)

  -- `_check_should_skip`, where `inactive` is a node to skip
  abbrev pub stream_found : Services → Context → String → String → Option Node → Check
  stream_found s c id p none = crash (missing_node p)
  stream_found s c id p (some n) =
      if is_condition n
      then check_of (matches (extract_branch_value (get_node_result p c)) (s.source_handle p id))
      else check_ordinary (get_node_result p c)

  abbrev pub stream_paths : Services → Context → String → List String → Check
  stream_paths s c id [] = inactive
  stream_paths s c id (p ∷ ps) =
      or_check (stream_found s c id p (node_map s.nodes p)) (stream_paths s c id ps)

  abbrev pub stream_preds : Services → Context → String → List String → Check
  stream_preds s c id [] = active
  stream_preds s c id (p ∷ ps) = stream_paths s c id (p ∷ ps)

  abbrev pub check_should_skip : Services → Context → String → Check
  check_should_skip s c id = stream_preds s c id (s.predecessors id)

pub data Event : Type 0 where
  workflow_start : String → ℕ → Event
  execution_plan : List String → ℕ → Event
  node_skipped : String → String → Event
  node_start : String → String → ℕ → ℕ → Event
  node_output : String → String → Json → Event
  node_end : String → String → ℕ → ℕ → Event
  node_error : String → String → Raised → Json → Event
  workflow_error : String → Raised → ℕ → ℕ → Json → Event
  workflow_end : String → ℕ → ℕ → Event

-- How the loop over the nodes ends: with the number of completed nodes, at a node whose processor
-- raised, or in an exception that leaves the iterator.
pub data Ending : Type 0 where
  went_through : ℕ → Context → Ending
  failed_at : String → Raised → ℕ → Json → Context → Ending
  broken : Crash → Ending

pub record Streamed : Type 0 where
  pub events : List Event
  pub ending : Ending

abbrev pub emit : List Event → Streamed → Streamed
emit es r = record { events = es ++ r.events; ending = r.ending }

abbrev pub stop_with : List Event → Ending → Streamed
stop_with es e = record { events = es; ending = e }

-- `getattr(e, 'error_id', None) or "UNKNOWN_ERROR"`
abbrev pub code_or_unknown : Option String → Json
code_or_unknown none = str "UNKNOWN_ERROR"
code_or_unknown (some t) = if truthy (str t) then str t else str "UNKNOWN_ERROR"

-- the response that stands for the exception of a processor
abbrev pub error_output : Node → Raised → Json
error_output node e = obj (
    field "status" (str "error") (
      field "processor_type" (str node.type) (
        field "error" (str e.text) (
          field "error_code" (code_or_unknown e.code) (
            field "error_type" (str e.type_name) (
              field "error_category" (text_or "unknown" e.category) (
                field "node_id" (str node.id) (
                  field "node_type" (str node.type) (
                    field "retryable" (bool_or false e.retryable)
                      (field "traceback" (str e.trace) (field "body" null end)))))))))))

module _ (text_of : Json → String) (run : Node → Fields → Context → Context × Reply) (s : Services)
    (total : ℕ) where
  abbrev pub stream_check : Check → Node → (Node → Streamed) → (Node → Streamed) → Streamed
  stream_check active node skip go = go node
  stream_check inactive node skip go = emit (node_skipped node.id node.type ∷ []) (skip node)
  stream_check (crash e) node skip go = stop_with [] (broken e)

  -- `completed` nodes came before this one
  abbrev pub stream_reply : Node → ℕ → Reply → Context → (Context → Streamed) → Streamed
  stream_reply node completed (returned v) c go =
      emit
        (node_start node.id node.type completed total
          ∷ node_output node.id node.type v
          ∷ node_end node.id node.type (suc completed) total
          ∷ [])
        (go (set_node_result node.id v c))
  stream_reply node completed (raised e) c go =
      stop_with
        (node_start node.id node.type completed total
          ∷ node_error node.id node.type e (error_output node e)
          ∷ [])
        (failed_at node.id e completed (error_output node e)
          (set_node_result node.id (error_output node e) c))

  abbrev pub stream_node : Option Node → String → (Node → Streamed) → Streamed
  stream_node none id go = stop_with [] (broken (missing_node id))
  stream_node (some node) id go = go node

  abbrev pub stream_nodes : List String → Context → ℕ → Streamed
  stream_nodes [] c completed = stop_with [] (went_through completed c)
  stream_nodes (id ∷ ids) c completed = stream_node (node_map s.nodes id) id (λ node.
      stream_check (check_should_skip text_of s c id) node (λ node. stream_nodes ids c completed)
        (λ node.
          let reply = run node (predecessor_results c (s.predecessors id)) c in
          stream_reply node completed (reply.1) (reply.0)
            (λ next. stream_nodes ids next (suc completed))))

-- the last event
abbrev pub closing : String → ℕ → Ending → List Event
closing workflow total (went_through completed c) = workflow_end workflow completed total ∷ []
closing workflow total (failed_at id e completed output c) =
    workflow_error id e completed total output ∷ []
closing workflow total (broken e) = []

abbrev pub stream :
    (Json → String)
    → (Node → Fields → Context → Context × Reply)
    → Services
    → String
    → List String
    → Context
    → Streamed
stream text_of run s workflow order c =
    let r = stream_nodes text_of run s (length order) order c 0 in
    record {
      events =
          workflow_start workflow (length (distinct (map (λ n. n.id) s.nodes)))
          ∷ execution_plan order (length order)
          ∷ (r.events ++ closing workflow (length order) r.ending);
      ending = r.ending;
    }
