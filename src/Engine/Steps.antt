-- ===== src/Engine/Steps.antt =====
-- packages/engine/src/models/execution.py: the step results, and the result of a whole execution.
-- Instants and durations are counted in whole microseconds; a clock that goes back between the two
-- readings gives the duration 0 here.
pub mod Dictionaries
pub mod Entries
pub mod RoundTrip
use vanguard_runner.Base.{
  ℕ, ◌+◌, ◌-◌, String, Bool, true, false, ◌==◌, Option, none, some, List, [], ◌∷◌, ◌++◌, select,
  find, length,
}
use vanguard_runner.Model.{Json, Fields, end}

pub data ExecutionStatus : Type 0 where
  pending : ExecutionStatus
  running : ExecutionStatus
  success : ExecutionStatus
  failed : ExecutionStatus
  cancelled : ExecutionStatus

pub data StepStatus : Type 0 where
  pending : StepStatus
  running : StepStatus
  success : StepStatus
  failed : StepStatus
  skipped : StepStatus

-- `output` and `error` are `null` where the source has None; a processor's `error` is any value.
pub record StepResult : Type 0 where
  pub node_id : String
  pub node_type : String
  pub status : StepStatus
  pub start_time : Option ℕ
  pub end_time : Option ℕ
  pub duration : Option ℕ
  pub output : Json
  pub error : Json
  pub metadata : Fields
  pub logs : Option String

-- `if self.start_time and self.end_time: self.duration = ...`
abbrev pub duration_between : Option ℕ → Option ℕ → Option ℕ → Option ℕ
duration_between (some s) (some e) given = some (e - s)
duration_between (some s) none given = given
duration_between none e given = given

-- `StepResult.__post_init__`, which the constructor runs once
abbrev pub init_step : StepResult → StepResult
init_step r = record r { duration = duration_between r.start_time r.end_time r.duration }

pub record ExecutionResult : Type 0 where
  pub workflow_id : String
  pub status : ExecutionStatus
  pub start_time : Option ℕ
  pub end_time : Option ℕ
  pub duration : Option ℕ
  pub steps : List StepResult
  pub variables : Fields
  pub metadata : Fields

abbrev pub init_result : ExecutionResult → ExecutionResult
init_result r = record r { duration = duration_between r.start_time r.end_time r.duration }

abbrev pub add_step : StepResult → ExecutionResult → ExecutionResult
add_step s r = record r { steps = r.steps ++ (s ∷ []) }

abbrev pub get_step : String → ExecutionResult → Option StepResult
get_step id r = find (λ s. s.node_id == id) r.steps

abbrev pub is_success : StepStatus → Bool
is_success success = true
is_success pending = false
is_success running = false
is_success failed = false
is_success skipped = false

abbrev pub is_failed : StepStatus → Bool
is_failed failed = true
is_failed pending = false
is_failed running = false
is_failed success = false
is_failed skipped = false

abbrev pub is_skipped : StepStatus → Bool
is_skipped skipped = true
is_skipped pending = false
is_skipped running = false
is_skipped success = false
is_skipped failed = false

abbrev pub is_pending : StepStatus → Bool
is_pending pending = true
is_pending running = false
is_pending success = false
is_pending failed = false
is_pending skipped = false

abbrev pub get_successful_steps : ExecutionResult → List StepResult
get_successful_steps r = select (λ s. is_success s.status) r.steps

abbrev pub get_failed_steps : ExecutionResult → List StepResult
get_failed_steps r = select (λ s. is_failed s.status) r.steps

abbrev pub get_skipped_steps : ExecutionResult → List StepResult
get_skipped_steps r = select (λ s. is_skipped s.status) r.steps

abbrev pub add_durations : List StepResult → ℕ
add_durations [] = 0
add_durations (s ∷ ss) = elim s.duration [ none ↦ add_durations ss | some d ↦ d + add_durations ss ]

abbrev pub get_total_duration : ExecutionResult → ℕ
get_total_duration r = elim r.duration [ some d ↦ d | none ↦ add_durations r.steps ]
