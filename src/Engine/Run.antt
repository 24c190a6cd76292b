-- ===== src/Engine/Run.antt =====
-- `WorkflowExecutor.execute` and `_finalize_failure` (packages/engine/workflow_engine.py), without
-- shard storage. The dictionary that a processor returns is the one that the context keeps, so the
-- entries that `execute` adds to it are written back to the context.
pub mod Nodes
pub mod Ends
pub mod Order
pub mod Frame
pub mod Activation
pub mod Termination
use vanguard_runner.Base.{
  ℕ, String, Bool, true, false, ◌==◌, Option, none, some, List, [], ◌∷◌, map, if◌then◌else◌,
}
use vanguard_runner.Model.{
  Json, null, bool, num, str, arr, obj, Fields, end, field, get_field, truthy,
}
use vanguard_runner.Model.Dicts.{get_or, get_json, set_field, or_json}
use vanguard_runner.Engine.Steps.{
  ExecutionStatus, running, success, failed, pending, StepStatus, skipped, StepResult,
  ExecutionResult, add_step, init_step,
}
use vanguard_runner.Engine.Services.{
  Node, Context, set_variable, set_node_result, get_node_result, Raised, Reply, returned, raised,
  Services, node_map,
}
use vanguard_runner.Engine.Branches.{
  Check, Crash, missing_node, active, inactive, crash, check_node,
}
use vanguard_runner.Engine.Outputs.{
  as_dict, wrap_result, mark_error, is_error_status, step_error, enhance, code_metadata,
  response_of, error_of, assertion_results,
}

-- the step that the loop creates, still pending
abbrev pub open_step : Services → Node → StepResult
open_step s node = init_step (record {
  node_id = node.id;
  node_type = node.type;
  status = pending;
  start_time = some (s.started node.id);
  end_time = none;
  duration = none;
  output = null;
  error = null;
  metadata = end;
  logs = none;
})

-- the assignments at the end of a step
abbrev pub close_step : Services → Node → StepStatus → Json → Json → Fields → StepResult
close_step s node status output error metadata = record (open_step s node) {
  status = status;
  output = output;
  error = error;
  metadata = metadata;
  logs = some (s.logs node.id);
  end_time = some (s.ended node.id);
}

-- How a node ends: the loop goes on, or `_finalize_failure` ends the execution.
pub data NodeEnd : Type 0 where
  passed : StepResult → Context → NodeEnd
  broke : StepResult → Context → NodeEnd

-- `{p: self.context.get_node_result(p) for p in predecessors}`
abbrev pub predecessor_results : Context → List String → Fields
predecessor_results c [] = end
predecessor_results c (p ∷ ps) = field p (get_node_result p c) (predecessor_results c ps)

abbrev pub set_named : Json → Json → Context → Context
set_named (str k) v c = set_variable k v c
set_named null v c = c
set_named (bool b) v c = c
set_named (num n) v c = c
set_named (arr xs) v c = c
set_named (obj d) v c = c

-- the custom variable name of a node, which is a text; the variable keeps the result as it is then
abbrev pub save_output : Node → Json → Context → Context
save_output node v c =
    let name =
      or_json (get_json "output_variable" node.node_data) (get_json "output_var" node.node_data) in
    if truthy name then set_named name v c else c

-- An inline processor's part: the context it left, what it gives the result, and its exception.
pub record Inline : Type 0 where
  pub context : Context
  pub value : Json
  pub error : Option Raised

abbrev pub extracted : Context → Reply → Inline
extracted c (raised e) = record { context = c; value = obj end; error = some e }
extracted c (returned v) = record { context = c; value = obj (as_dict v); error = none }

-- a list of extractions, or a dictionary that holds one
abbrev pub extractor_config : Json → Json
extractor_config (obj d) = obj d
extractor_config null = obj (field "extractions" null end)
extractor_config (bool b) = obj (field "extractions" (bool b) end)
extractor_config (num n) = obj (field "extractions" (num n) end)
extractor_config (str t) = obj (field "extractions" (str t) end)
extractor_config (arr xs) = obj (field "extractions" (arr xs) end)

abbrev pub run_extraction : Services → Node → Json → Json → Context → Bool → Inline
run_extraction s node v config c false = record { context = c; value = obj end; error = none }
run_extraction s node v config c true =
    let reply =
      s.inline "variable_extractor" node.id (extractor_config config) (field node.id v end) c in
    extracted (reply.0) (reply.1)

abbrev pub extract_inline : Services → Node → Json → Context → Inline
extract_inline s node v c =
    let config =
      or_json (get_json "extractions" node.node_data) (get_json "extract" node.node_data) in
    run_extraction s node v config c (truthy config)

abbrev pub asserted : Services → Context → Fields → Reply → Inline
asserted s c config (raised e) = record { context = c; value = null; error = some e }
asserted s c config (returned v) =
    let results = assertion_results v config in
    record { context = c; value = results.0; error = if results.1 then none else some s.malformed }

-- `if inline_assertion and isinstance(inline_assertion, dict)`
abbrev pub run_assertion : Services → Node → Json → Json → Context → Inline
run_assertion s node v (obj end) c = record { context = c; value = null; error = none }
run_assertion s node v (obj (field k w d)) c =
    let reply = s.inline "assertion" node.id (obj (field k w d)) (field node.id v end) c in
    asserted s (reply.0) (field k w d) (reply.1)
run_assertion s node v null c = record { context = c; value = null; error = none }
run_assertion s node v (bool b) c = record { context = c; value = null; error = none }
run_assertion s node v (num n) c = record { context = c; value = null; error = none }
run_assertion s node v (str t) c = record { context = c; value = null; error = none }
run_assertion s node v (arr xs) c = record { context = c; value = null; error = none }

abbrev pub assert_inline : Services → Node → Json → Context → Inline
assert_inline s node v c =
    run_assertion s node v
      (or_json (get_json "assertion" node.node_data) (get_json "assertions" node.node_data)) c

-- `for var_name, var_value in output_vars.items(): self.context.set_variable(...)`
abbrev pub set_variables : Fields → Context → Context
set_variables end c = c
set_variables (field k v d) c = set_variables d (set_variable k v c)

-- `result["assertion"]` and `result["extract_vars"]`
abbrev pub add_inline : Json → Json → Json → Fields
add_inline v assertion extract =
    set_field "extract_vars" extract (set_field "assertion" assertion (wrap_result v))

abbrev pub body_variables : Fields → Fields
body_variables d = as_dict (get_json "variables" (as_dict (get_json "body" d)))

-- the context's own dictionary, which is the one that `execute` goes on to change
abbrev pub write_back : Node → Json → Fields → Context → Context
write_back node (obj old) d c = set_node_result node.id (obj d) c
write_back node null d c = c
write_back node (bool b) d c = c
write_back node (num n) d c = c
write_back node (str t) d c = c
write_back node (arr xs) d c = c

-- the status that the processor returned
abbrev pub judge_status : Services → Node → Fields → Context → Bool → NodeEnd
judge_status s node d c false = passed (close_step s node success (obj d) null end) c
judge_status s node d c true =
    broke
      (close_step s node failed (obj (enhance node d)) (step_error d)
        (code_metadata (enhance node d)))
      c

abbrev pub fail_marked :
    Services → Node → String → String → Raised → Json → Fields → Context → NodeEnd
fail_marked s node code category e v d c =
    let marked = mark_error code category node e d in
    broke (close_step s node failed (obj marked) (str e.text) end) (write_back node v marked c)

abbrev pub judge :
    Services → Node → Json → Fields → Context → Option Raised → Option Raised → NodeEnd
judge s node v d c (some e) assertion = fail_marked s node "EXTRACTION_ERROR" "extraction" e v d c
judge s node v d c none (some e) = fail_marked s node "ASSERTION_ERROR" "assertion" e v d c
judge s node v d c none none =
    judge_status s node d c (is_error_status (get_or (str "success") "status" d))

-- what follows the assertion: the two entries of the result, and the variables of its body
abbrev pub finish_node : Services → Node → Json → Inline → Inline → NodeEnd
finish_node s node v ex check =
    let d = add_inline v check.value ex.value in
    judge s node v d (set_variables (body_variables d) (write_back node v d check.context)) ex.error
      check.error

-- what follows the processor's normalised result
abbrev pub after_result : Services → Node → Json → Context → NodeEnd
after_result s node v c =
    let ex = extract_inline s node v (save_output node v (set_node_result node.id v c)) in
    finish_node s node v ex (assert_inline s node v ex.context)

abbrev pub after_reply : Services → Node → Context → Reply → NodeEnd
after_reply s node c (returned v) = after_result s node v c
after_reply s node c (raised e) =
    broke (close_step s node failed (obj (response_of e.kind node e)) (error_of e.kind e) end) c

-- the body of the loop for a node that is not skipped
abbrev pub run_node : Services → Node → Context → NodeEnd
run_node s node c =
    let reply = s.process node (predecessor_results c (s.predecessors node.id)) c in
    after_reply s node (reply.0) (reply.1)

-- How `execute` ends: it returns a result, or raises, which leaves the result as it was then.
pub data Outcome : Type 0 where
  finished : ExecutionResult → Context → Outcome
  crashed : Crash → ExecutionResult → Context → Outcome

-- the placeholders that `_finalize_failure` adds for the nodes that follow
abbrev pub pending_step : Node → StepResult
pending_step node = init_step (record {
  node_id = node.id;
  node_type = node.type;
  status = pending;
  start_time = none;
  end_time = none;
  duration = none;
  output = null;
  error = null;
  metadata = end;
  logs = none;
})

abbrev pub close_result : ExecutionStatus → ℕ → Context → ExecutionResult → Outcome
close_result status now c r =
    finished (record r { status = status; end_time = some now; variables = c.variables }) c

-- `node = self.node_map[node_id]`, and what goes on with the node
abbrev pub with_node : Option Node → String → ExecutionResult → Context → (Node → Outcome) → Outcome
with_node none id r c go_on = crashed (missing_node id) r c
with_node (some node) id r c go_on = go_on node

-- `should_skip`, and what each way does with the node
abbrev pub with_check :
    Check → Node → ExecutionResult → Context → (Node → Outcome) → (Node → Outcome) → Outcome
with_check active node r c skip run = run node
with_check inactive node r c skip run = skip node
with_check (crash e) node r c skip run = crashed e r c

abbrev pub with_end :
    NodeEnd → (StepResult → Context → Outcome) → (StepResult → Context → Outcome) → Outcome
with_end (passed step c) go_on fail = go_on step c
with_end (broke step c) go_on fail = fail step c

abbrev pub add_pending : Services → ℕ → List String → Context → ExecutionResult → Outcome
add_pending s now [] c r = close_result failed now c r
add_pending s now (id ∷ ids) c r =
    with_node (node_map s.nodes id) id r c
      (λ node. add_pending s now ids c (add_step (pending_step node) r))

-- `now` is the clock's reading at the end.
abbrev pub finalize_failure :
    Services → ℕ → StepResult → List String → Context → ExecutionResult → Outcome
finalize_failure s now step rest c r = add_pending s now rest c (add_step step r)

abbrev pub skip_step : Services → Node → StepResult
skip_step s node = close_step s node skipped null null end

-- the loop over the execution order
abbrev pub run_order : Services → ℕ → List String → Context → ExecutionResult → Outcome
run_order s now [] c r = close_result success now c r
run_order s now (id ∷ ids) c r = with_node (node_map s.nodes id) id r c (λ node.
    with_check (check_node s c id) node r c
      (λ node. run_order s now ids c (add_step (skip_step s node) r))
      (λ node.
        with_end (run_node s node c) (λ step next. run_order s now ids next (add_step step r))
          (λ step next. finalize_failure s now step ids next r)))

-- `begin` and `now` are the readings at the two ends, `order` is what topological_sort gives.
abbrev pub execute : Services → ℕ → ℕ → List String → Context → ExecutionResult → Outcome
execute s begin now order c r =
    run_order s now order c (record r { start_time = some begin; status = running })
