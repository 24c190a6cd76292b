-- ===== src/Engine/Steps/Entries.antt =====
-- The single entries of the dictionaries read back: statuses, instants, durations and texts
-- (packages/engine/src/models/execution.py).
use vanguard_runner.Base.{
  ℕ, String, Bool, true, false, ◌==◌, Option, none, some, map, if◌then◌else◌, ◌≡◌, refl, ap, ◌∙◌,
  eq_refl,
}
use vanguard_runner.Model.{Json, null, num, str, Fields, end, get_field, truthy}
use vanguard_runner.Model.Dicts.{get_json, get_or_missing}
use vanguard_runner.Engine.Steps.{
  ExecutionStatus, pending, running, success, failed, cancelled, StepStatus, skipped, StepResult,
  ExecutionResult, init_step, init_result,
}
use vanguard_runner.Engine.Steps.Dictionaries.{
  ◌>>=◌, step_text, execution_text, parse_step, parse_execution, put_duration, put_if, put_logs,
  as_duration, as_logs, put_time, as_time,
}

-- A falsy `error` and an empty text of logs are not written, and the constructor computes the
-- duration anew where both instants are known.
abbrev pub settle_json : Json → Json
settle_json j = if truthy j then j else null

abbrev pub settle_logs : Option String → Option String
settle_logs none = none
settle_logs (some t) = if truthy (str t) then some t else none

abbrev pub settle_step : StepResult → StepResult
settle_step r = init_step (record r { error = settle_json r.error; logs = settle_logs r.logs })

abbrev pub settle_result : ExecutionResult → ExecutionResult
settle_result r = init_result (record r { steps = map settle_step r.steps })

pub parse_step-step_text : (s : StepStatus) → parse_step (step_text s) ≡ some s
parse_step-step_text pending = refl
parse_step-step_text running = refl
parse_step-step_text success = refl
parse_step-step_text failed = refl
parse_step-step_text skipped = refl

pub parse_execution-execution_text :
    (s : ExecutionStatus) → parse_execution (execution_text s) ≡ some s
parse_execution-execution_text pending = refl
parse_execution-execution_text running = refl
parse_execution-execution_text success = refl
parse_execution-execution_text failed = refl
parse_execution-execution_text cancelled = refl

-- a conditional entry does not change what stands under another key
module _ (k : String) (d : Fields) where
  pub past_duration :
      (n : Option ℕ) → ("duration" == k) ≡ false → get_field k (put_duration n d) ≡ get_field k d
  past_duration none h = refl
  past_duration (some n) h = ap (λ b. if b then some (num n) else get_field k d) h

  pub past_if :
      (b : Bool) (i : String) (v : Json)
      → (i == k) ≡ false
      → get_field k (put_if b i v d) ≡ get_field k d
  past_if false i v h = refl
  past_if true i v h = ap (λ c. if c then some v else get_field k d) h

  pub past_logs :
      (l : Option String) → ("logs" == k) ≡ false → get_field k (put_logs l d) ≡ get_field k d
  past_logs none h = refl
  past_logs (some t) h = past_if (truthy (str t)) "logs" (str t) h

  pub read_if :
      (b : Bool) (v : Json)
      → get_field k d ≡ none
      → get_json k (put_if b k v d) ≡ (if b then v else null)
  read_if false v e = get_or_missing null k d e
  read_if true v e =
      ap (λ c. elim (if c then some v else get_field k d) [ none ↦ null | some w ↦ w ]) (eq_refl k)

pub read_duration :
    (n : Option ℕ) (d : Fields)
    → get_field "duration" d ≡ none
    → as_duration (get_json "duration" (put_duration n d)) ≡ some n
read_duration none d e = ap as_duration (get_or_missing null "duration" d e)
read_duration (some n) d e = refl

pub as_logs-if :
    (b : Bool) (t : String)
    → as_logs (if b then str t else null) ≡ some (if b then some t else none)
as_logs-if true t = refl
as_logs-if false t = refl

pub read_logs :
    (l : Option String) → as_logs (get_json "logs" (put_logs l end)) ≡ some (settle_logs l)
read_logs none = refl
read_logs (some t) =
    ap as_logs (read_if "logs" end (truthy (str t)) (str t) refl) ∙ as_logs-if (truthy (str t)) t

module _ (isoformat : ℕ → String) (fromisoformat : String → Option ℕ)
    (parses : (t : ℕ) → fromisoformat (isoformat t) ≡ some t)
    (nonempty : (t : ℕ) → truthy (str (isoformat t)) ≡ true) where
  pub past_time :
      (j k : String) (t : Option ℕ) (d : Fields)
      → (j == k) ≡ false
      → get_field k (put_time isoformat fromisoformat j t d) ≡ get_field k d
  past_time j k none d h = refl
  past_time j k (some t) d h = ap (λ c. if c then some (str (isoformat t)) else get_field k d) h

  pub as_time-isoformat :
      (t : ℕ) → as_time isoformat fromisoformat (str (isoformat t)) ≡ some (some t)
  as_time-isoformat t =
      ap (λ b. if b then fromisoformat (isoformat t) >>= (λ n. some (some n)) else some none)
        (nonempty t)
      ∙ ap (λ o. o >>= (λ n. some (some n))) (parses t)

  pub read_time :
      (k : String) (t : Option ℕ) (d : Fields)
      → get_field k d ≡ none
      → as_time isoformat fromisoformat (get_json k (put_time isoformat fromisoformat k t d))
        ≡ some t
  read_time k none d e = ap (as_time isoformat fromisoformat) (get_or_missing null k d e)
  read_time k (some t) d e =
      ap
        (λ c.
          as_time isoformat fromisoformat
            (elim (if c then some (str (isoformat t)) else get_field k d) [
              | none ↦ null
              | some w ↦ w
            ]))
        (eq_refl k)
      ∙ as_time-isoformat t
