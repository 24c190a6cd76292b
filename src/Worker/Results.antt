-- ===== src/Worker/Results.antt =====
-- `WorkflowExecutor.execute_workflow` (apps/worker/executors/workflow_executor.py) from the engine's
-- result to the dictionary that it returns, without shard storage. `milliseconds` is
-- `int(seconds * 1000)` of a time in microseconds; `lower`, `upper` and `strip` are Python's, and
-- `contains part text` is `part in text`.
pub mod Counts
use vanguard_runner.Base.{
  ℕ, suc, zero, ◌-◌, ◌||◌, String, Bool, true, false, not, ◌==◌, nat_eq, Option, none, some, List,
  [], ◌∷◌, length, any, select, if◌then◌else◌,
}
use vanguard_runner.Model.{
  Json, null, bool, num, str, arr, obj, Items, nil, cons, Fields, end, field, get_field, truthy,
}
use vanguard_runner.Model.Dicts.{get_json, get_or, or_json}
use vanguard_runner.Engine.Steps.{
  ExecutionStatus, StepStatus, pending, running, success, failed, cancelled, skipped, StepResult,
  ExecutionResult, get_successful_steps, get_failed_steps, get_skipped_steps, is_pending,
}
use vanguard_runner.Engine.Steps.Dictionaries.{◌>>=◌}
use Prim.Native.String.{◌++◌ as text_append}
use vanguard_runner.Worker.Outputs.{step_output, Extracted, extract_output, step_name}

-- `status_mapping.get(status.lower(), status.upper())`, for the workflow and for a step
abbrev pub format_status : ExecutionStatus → String
format_status success = "SUCCESS"
format_status failed = "FAILED"
format_status running = "RUNNING"
format_status pending = "PENDING"
format_status cancelled = "CANCELLED"

abbrev pub format_step_status : StepStatus → String
format_step_status success = "SUCCESS"
format_step_status failed = "FAILED"
format_step_status running = "RUNNING"
format_step_status pending = "PENDING"
format_step_status skipped = "SKIPPED"

abbrev pub is_successful : ExecutionStatus → Bool
is_successful success = true
is_successful failed = false
is_successful running = false
is_successful pending = false
is_successful cancelled = false

-- What is sent is left out where it is empty.
abbrev pub unless_empty : Json → Option Json
unless_empty j = if truthy j then some j else none

pub record ResponseData : Type 0 where
  pub body : Option Json
  pub extract_vars : Option Json
  pub assertion : Option Json

pub record StepCallback : Type 0 where
  pub step_id : String
  pub step_name : Json
  pub step_type : String
  pub order_num : ℕ
  pub status : String
  pub start_time : Option ℕ
  pub end_time : Option ℕ
  pub duration_ms : ℕ
  pub request_data : Option Json
  pub response_data : Option ResponseData
  pub assertion : Option Json
  pub extract_vars : Option Json
  pub description : Json

pub record LogEntry : Type 0 where
  pub run_step_id : String
  pub level : String
  pub content : String
  pub log_time : ℕ

pub record RunResult : Type 0 where
  pub status : String
  pub start_time : Option ℕ
  pub end_time : Option ℕ
  pub duration_ms : ℕ
  pub total_steps : ℕ
  pub passed_count : ℕ
  pub failed_count : ℕ
  pub skipped_count : ℕ
  pub pending_count : ℕ
  pub steps : List StepCallback
  pub logs : List LogEntry
  pub successful : Bool

abbrev pub response_object : Extracted → Option ResponseData
response_object x =
    if truthy x.response_data || (truthy x.extract_vars || truthy x.assertion_logs)
    then some (record {
      body = unless_empty x.response_data;
      extract_vars = unless_empty x.extract_vars;
      assertion = unless_empty x.assertion_logs;
    })
    else none

module _ (milliseconds : ℕ → ℕ) (lower upper strip : String → String)
    (contains : String → String → Bool) where
  abbrev pub millis_of : Option ℕ → Option ℕ
  millis_of none = none
  millis_of (some t) = some (milliseconds t)

  abbrev pub elapsed : Option ℕ → Option ℕ → ℕ
  elapsed (some a) (some b) = milliseconds (b - a)
  elapsed (some a) none = 0
  elapsed none b = 0

  -- a duration that is not 0 comes first
  abbrev pub step_duration : StepResult → ℕ
  step_duration s = elim s.duration [
    | some (suc d) ↦ milliseconds (suc d)
    | some zero ↦ elapsed s.start_time s.end_time
    | none ↦ elapsed s.start_time s.end_time
  ]

  abbrev pub run_duration : ExecutionResult → ℕ
  run_duration r = elim r.duration [
    | none ↦ elapsed r.start_time r.end_time
    | some d ↦ if nat_eq (milliseconds d) 0 then elapsed r.start_time r.end_time else milliseconds d
  ]

  abbrev pub describe : StepResult → Json
  describe s =
      if truthy s.error then s.error else str (text_append "步骤执行" (format_step_status s.status))

  abbrev pub step_type : String → String
  step_type t = if t == "" then "UNKNOWN" else upper t

  abbrev pub step_callback : ℕ → StepResult → Json → Extracted → StepCallback
  step_callback n s name x = record {
    step_id = s.node_id;
    step_name = name;
    step_type = step_type s.node_type;
    order_num = n;
    status = format_step_status s.status;
    start_time = millis_of s.start_time;
    end_time = millis_of s.end_time;
    duration_ms = step_duration s;
    request_data = unless_empty x.request_data;
    response_data = response_object x;
    assertion = unless_empty x.assertion_logs;
    extract_vars = unless_empty x.extract_vars;
    description = describe s;
  }

  abbrev pub format_step : Items → ℕ → StepResult → Option StepCallback
  format_step nodes n s = do
    x ← extract_output lower s.node_type (step_output s.output)
    name ← step_name s.node_id nodes
    some (step_callback n s name x)

  -- the loop, whose next order number is n
  abbrev pub format_steps : Items → ℕ → List StepResult → Option (List StepCallback)
  format_steps nodes n [] = some []
  format_steps nodes n (s ∷ ss) =
      format_step nodes n s >>= λ x. format_steps nodes (suc n) ss >>= λ xs. some (x ∷ xs)

  abbrev pub log_level : String → String
  log_level content =
      if contains "error" content
      then "ERROR"
      else if contains "warn" content || contains "warning" content
      then "WARN"
      else if contains "debug" content
      then "DEBUG"
      else "INFO"

  -- `now` is the clock's reading
  abbrev pub log_time : ℕ → StepResult → ℕ
  log_time now s = elim s.end_time [
    | some t ↦ milliseconds t
    | none ↦ elim s.start_time [ some t ↦ milliseconds t | none ↦ milliseconds now ]
  ]

  abbrev pub collect_logs : ℕ → List StepResult → List LogEntry
  collect_logs now [] = []
  collect_logs now (s ∷ ss) =
      let rest = collect_logs now ss in
      elim s.logs [
        | none ↦ rest
        | some content ↦
            if strip content == ""
            then rest
            else record {
              run_step_id = s.node_id;
              level = log_level (lower content);
              content = content;
              log_time = log_time now s;
            }
              ∷ rest
      ]

  abbrev pub run_result : ℕ → ExecutionResult → List StepCallback → RunResult
  run_result now r steps = record {
    status = format_status r.status;
    start_time = millis_of r.start_time;
    end_time = millis_of r.end_time;
    duration_ms = run_duration r;
    total_steps = length r.steps;
    passed_count = length (get_successful_steps r);
    failed_count = length (get_failed_steps r);
    skipped_count = length (get_skipped_steps r);
    pending_count = length (select (λ s. is_pending s.status) r.steps);
    steps = steps;
    logs = collect_logs now r.steps;
    successful = is_successful r.status;
  }

  -- The result that is returned; `none` is an exception of the formatting, on which the task fails.
  abbrev pub format_result : ℕ → Items → ExecutionResult → Option RunResult
  format_result now nodes r =
      format_steps nodes 1 r.steps >>= λ steps. some (run_result now r steps)
