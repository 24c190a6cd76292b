-- ===== src/Engine/Steps/Dictionaries.antt =====
-- `to_dict` and `from_dict` of the step and execution results
-- (packages/engine/src/models/execution.py). `isoformat` and `fromisoformat` are datetime's.
-- `from_dict` gives `none` where the source raises: a missing key, a text that is no instant or no
-- status. A field that holds a value of another kind than its type says is refused here too.
use vanguard_runner.Base.{
  ℕ, String, Bool, true, false, ◌==◌, Option, none, some, List, [], ◌∷◌, if◌then◌else◌,
}
use vanguard_runner.Model.{
  Json, null, num, str, arr, obj, Items, nil, cons, Fields, end, field, get_field, truthy,
}
use vanguard_runner.Model.Dicts.{get_json, get_or, put_value}
use vanguard_runner.Engine.Steps.{
  ExecutionStatus, pending, running, success, failed, cancelled, StepStatus, skipped, StepResult,
  ExecutionResult, init_step, init_result,
}

infixl 5 ◌>>=◌
abbrev pub ◌>>=◌ {ℓ κ} : {A : Type ℓ} {B : Type κ} → Option A → (A → Option B) → Option B
none >>= f = none
some a >>= f = f a

-- `status.value`
abbrev pub step_text : StepStatus → String
step_text pending = "pending"
step_text running = "running"
step_text success = "success"
step_text failed = "failed"
step_text skipped = "skipped"

abbrev pub execution_text : ExecutionStatus → String
execution_text pending = "pending"
execution_text running = "running"
execution_text success = "success"
execution_text failed = "failed"
execution_text cancelled = "cancelled"

-- `StepStatus(text)`
abbrev pub parse_step : String → Option StepStatus
parse_step t =
    if t == "pending"
    then some pending
    else if t == "running"
    then some running
    else if t == "success"
    then some success
    else if t == "failed"
    then some failed
    else if t == "skipped"
    then some skipped
    else none

-- `ExecutionStatus(text)`
abbrev pub parse_execution : String → Option ExecutionStatus
parse_execution t =
    if t == "pending"
    then some pending
    else if t == "running"
    then some running
    else if t == "success"
    then some success
    else if t == "failed"
    then some failed
    else if t == "cancelled"
    then some cancelled
    else none

-- entries that stand in the dictionary under a condition
abbrev pub put_duration : Option ℕ → Fields → Fields
put_duration none d = d
put_duration (some n) d = field "duration" (num n) d

abbrev pub put_output : Json → Fields → Fields
put_output j d = put_value "output" j d

abbrev pub put_if : Bool → String → Json → Fields → Fields
put_if true k v d = field k v d
put_if false k v d = d

abbrev pub put_error : Json → Fields → Fields
put_error e d = put_if (truthy e) "error" e d

abbrev pub put_logs : Option String → Fields → Fields
put_logs none d = d
put_logs (some t) d = put_if (truthy (str t)) "logs" (str t) d

abbrev pub as_text : Option Json → Option String
as_text (some (str s)) = some s
as_text _ = none

abbrev pub as_fields : Json → Option Fields
as_fields (obj d) = some d
as_fields _ = none

abbrev pub as_items : Json → Option Items
as_items (arr xs) = some xs
as_items _ = none

-- `data.get("duration")`, `data.get("logs")`
abbrev pub as_duration : Json → Option (Option ℕ)
as_duration null = some none
as_duration (num n) = some (some n)
as_duration _ = none

abbrev pub as_logs : Json → Option (Option String)
as_logs null = some none
as_logs (str t) = some (some t)
as_logs _ = none

module _ (isoformat : ℕ → String) (fromisoformat : String → Option ℕ) where
  abbrev pub put_time : String → Option ℕ → Fields → Fields
  put_time k none d = d
  put_time k (some t) d = field k (str (isoformat t)) d

  abbrev pub parse_time : String → Option (Option ℕ)
  parse_time t = fromisoformat t >>= λ n. some (some n)

  -- `if data.get(k): datetime.fromisoformat(data[k])`
  abbrev pub as_time : Json → Option (Option ℕ)
  as_time null = some none
  as_time (str t) = if truthy (str t) then parse_time t else some none
  as_time _ = none

  abbrev pub step_to_dict : StepResult → Fields
  step_to_dict r = field "node_id" (str r.node_id) (
      field "node_type" (str r.node_type) (
        field "status" (str (step_text r.status)) (
          field "metadata" (obj r.metadata) (
            put_time "start_time" r.start_time (
              put_time "end_time" r.end_time (
                put_duration r.duration
                  (put_output r.output (put_error r.error (put_logs r.logs end)))))))))

  abbrev pub step_from_dict : Fields → Option StepResult
  step_from_dict d = do
    start ← as_time (get_json "start_time" d)
    stop ← as_time (get_json "end_time" d)
    id ← as_text (get_field "node_id" d)
    type ← as_text (get_field "node_type" d)
    text ← as_text (get_field "status" d)
    status ← parse_step text
    duration ← as_duration (get_json "duration" d)
    metadata ← as_fields (get_or (obj end) "metadata" d)
    logs ← as_logs (get_json "logs" d)
    some (
        init_step (record {
          node_id = id;
          node_type = type;
          status = status;
          start_time = start;
          end_time = stop;
          duration = duration;
          output = get_json "output" d;
          error = get_json "error" d;
          metadata = metadata;
          logs = logs;
        }))

  abbrev pub steps_to_items : List StepResult → Items
  steps_to_items [] = nil
  steps_to_items (s ∷ ss) = cons (obj (step_to_dict s)) (steps_to_items ss)

  abbrev pub steps_from_items : Items → Option (List StepResult)
  steps_from_items nil = some []
  steps_from_items (cons j js) =
      as_fields j >>= λ d. step_from_dict d >>= λ s. steps_from_items js >>= λ ss. some (s ∷ ss)

  abbrev pub result_to_dict : ExecutionResult → Fields
  result_to_dict r = field "workflow_id" (str r.workflow_id) (
      field "status" (str (execution_text r.status)) (
        field "steps" (arr (steps_to_items r.steps)) (
          field "variables" (obj r.variables) (
            field "metadata" (obj r.metadata) (
              put_time "start_time" r.start_time
                (put_time "end_time" r.end_time (put_duration r.duration end)))))))

  abbrev pub result_from_dict : Fields → Option ExecutionResult
  result_from_dict d = do
    start ← as_time (get_json "start_time" d)
    stop ← as_time (get_json "end_time" d)
    items ← as_items (get_or (arr nil) "steps" d)
    steps ← steps_from_items items
    id ← as_text (get_field "workflow_id" d)
    text ← as_text (get_field "status" d)
    status ← parse_execution text
    duration ← as_duration (get_json "duration" d)
    variables ← as_fields (get_or (obj end) "variables" d)
    metadata ← as_fields (get_or (obj end) "metadata" d)
    some (
        init_result (record {
          workflow_id = id;
          status = status;
          start_time = start;
          end_time = stop;
          duration = duration;
          steps = steps;
          variables = variables;
          metadata = metadata;
        }))
