-- ===== src/Engine/Steps/RoundTrip.antt =====
-- What `from_dict` gives back of the dictionary that `to_dict` wrote
-- (packages/engine/src/models/execution.py).
use vanguard_runner.Base.{
  ℕ, String, true, false, ◌==◌, Option, none, some, List, [], ◌∷◌, map, ◌≡◌, refl, ap, ◌∙◌,
}
use vanguard_runner.Model.{null, str, Fields, end, get_field, truthy}
use vanguard_runner.Model.Dicts.{get_json, get_field-put_value, get_json-put_value}
use vanguard_runner.Engine.Steps.{StepResult, ExecutionResult}
use vanguard_runner.Engine.Steps.Dictionaries.{
  step_text, parse_step, put_duration, put_output, put_error, put_logs, as_duration, as_logs,
  put_time, as_time, step_to_dict, step_from_dict, steps_to_items, steps_from_items, result_to_dict,
  result_from_dict,
}
use vanguard_runner.Engine.Steps.Entries.{
  settle_json, settle_logs, settle_step, settle_result, parse_step-step_text,
  parse_execution-execution_text, past_duration, past_if, past_logs, read_if, read_duration,
  read_logs, past_time, read_time,
}

module _ (isoformat : ℕ → String) (fromisoformat : String → Option ℕ)
    (parses : (t : ℕ) → fromisoformat (isoformat t) ≡ some t)
    (nonempty : (t : ℕ) → truthy (str (isoformat t)) ≡ true) where
  -- what follows an entry of the dictionary lacks the key of that entry
  module _ (r : StepResult) (k : String) where
    no_logs : ("logs" == k) ≡ false → get_field k (put_logs r.logs end) ≡ none
    no_logs l = past_logs k end r.logs l

    no_error :
        ("logs" == k) ≡ false
        → ("error" == k) ≡ false
        → get_field k (put_error r.error (put_logs r.logs end)) ≡ none
    no_error l e = past_if k (put_logs r.logs end) (truthy r.error) "error" r.error e ∙ no_logs l

    no_output :
        ("logs" == k) ≡ false
        → ("error" == k) ≡ false
        → ("output" == k) ≡ false
        → get_field k (put_output r.output (put_error r.error (put_logs r.logs end))) ≡ none
    no_output l e o =
        get_field-put_value "output" k r.output (put_error r.error (put_logs r.logs end)) o
        ∙ no_error l e

    no_duration :
        ("logs" == k) ≡ false
        → ("error" == k) ≡ false
        → ("output" == k) ≡ false
        → ("duration" == k) ≡ false
        → get_field k (
            put_duration r.duration (put_output r.output (put_error r.error (put_logs r.logs end))))
          ≡ none
    no_duration l e o n =
        past_duration k (put_output r.output (put_error r.error (put_logs r.logs end))) r.duration n
        ∙ no_output l e o

  module _ (r : StepResult) where
    abbrev tail_logs : Fields
    tail_logs = put_logs r.logs end

    abbrev tail_error : Fields
    tail_error = put_error r.error tail_logs

    abbrev tail_output : Fields
    tail_output = put_output r.output tail_error

    abbrev tail_duration : Fields
    tail_duration = put_duration r.duration tail_output

    abbrev tail_end : Fields
    tail_end = put_time isoformat fromisoformat "end_time" r.end_time tail_duration

    past_times :
        (k : String)
        → ("start_time" == k) ≡ false
        → ("end_time" == k) ≡ false
        → get_field k (put_time isoformat fromisoformat "start_time" r.start_time tail_end)
          ≡ get_field k tail_duration
    past_times k a b =
        past_time isoformat fromisoformat parses nonempty "start_time" k r.start_time tail_end a
        ∙ past_time isoformat fromisoformat parses nonempty "end_time" k r.end_time tail_duration b

  -- the reads of `from_dict`, one for each field
  module _ (r : StepResult) where
    abbrev written : Fields
    written = step_to_dict isoformat fromisoformat r

    abbrev decode : String → Option (Option ℕ)
    decode k = as_time isoformat fromisoformat (get_json k written)

    step_start : decode "start_time" ≡ some r.start_time
    step_start =
        read_time isoformat fromisoformat parses nonempty "start_time" r.start_time (tail_end r) (
          past_time isoformat fromisoformat parses nonempty "end_time" "start_time" r.end_time
            (tail_duration r) refl
          ∙ no_duration r "start_time" refl refl refl refl)

    step_end : decode "end_time" ≡ some r.end_time
    step_end =
        ap (λ o. as_time isoformat fromisoformat (elim o [ none ↦ null | some v ↦ v ]))
          (past_time isoformat fromisoformat parses nonempty "start_time" "end_time" r.start_time
            (tail_end r) refl)
        ∙ read_time isoformat fromisoformat parses nonempty "end_time" r.end_time (tail_duration r)
            (no_duration r "end_time" refl refl refl refl)

    step_status : parse_step (step_text r.status) ≡ some r.status
    step_status = parse_step-step_text r.status

    step_duration : as_duration (get_json "duration" written) ≡ some r.duration
    step_duration =
        ap (λ o. as_duration (elim o [ none ↦ null | some v ↦ v ]))
          (past_times r "duration" refl refl)
        ∙ read_duration r.duration (tail_output r) (no_output r "duration" refl refl refl)

    step_output : get_json "output" written ≡ r.output
    step_output =
        ap (λ o. elim o [ none ↦ null | some v ↦ v ])
          (past_times r "output" refl refl ∙ past_duration "output" (tail_output r) r.duration refl)
        ∙ get_json-put_value "output" r.output (tail_error r) (no_error r "output" refl refl)

    step_error : get_json "error" written ≡ settle_json r.error
    step_error =
        ap (λ o. elim o [ none ↦ null | some v ↦ v ])
          (past_times r "error" refl refl
            ∙ past_duration "error" (tail_output r) r.duration refl
            ∙ get_field-put_value "output" "error" r.output (tail_error r) refl)
        ∙ read_if "error" (tail_logs r) (truthy r.error) r.error (no_logs r "error" refl)

    step_logs : as_logs (get_json "logs" written) ≡ some (settle_logs r.logs)
    step_logs =
        ap (λ o. as_logs (elim o [ none ↦ null | some v ↦ v ]))
          (past_times r "logs" refl refl
            ∙ past_duration "logs" (tail_output r) r.duration refl
            ∙ get_field-put_value "output" "logs" r.output (tail_error r) refl
            ∙ past_if "logs" (tail_logs r) (truthy r.error) "error" r.error refl)
        ∙ read_logs r.logs

  -- Reading a step's dictionary back never fails, and gives the step itself except in three places:
  -- a falsy `error` and an empty text of logs come back as None, and the duration is computed anew
  -- where both instants are known.
  pub step_from_dict-step_to_dict :
      (r : StepResult)
      → step_from_dict isoformat fromisoformat (step_to_dict isoformat fromisoformat r)
        ≡ some (settle_step r)
  step_from_dict-step_to_dict r = rw (
    step_start r,
    step_end r,
    step_status r,
    step_duration r,
    step_output r,
    step_error r,
    step_logs r,
  )

  steps_from_items-steps_to_items :
      (ss : List StepResult)
      → steps_from_items isoformat fromisoformat (steps_to_items isoformat fromisoformat ss)
        ≡ some (map settle_step ss)
  steps_from_items-steps_to_items [] = refl
  steps_from_items-steps_to_items (s ∷ ss) =
      rw (step_from_dict-step_to_dict s, steps_from_items-steps_to_items ss)

  module _ (r : ExecutionResult) where
    abbrev result_written : Fields
    result_written = result_to_dict isoformat fromisoformat r

    result_decode :
        (k : String) → ("duration" == k) ≡ false → get_field k (put_duration r.duration end) ≡ none
    result_decode k h = past_duration k end r.duration h

    result_start :
        as_time isoformat fromisoformat (get_json "start_time" result_written) ≡ some r.start_time
    result_start =
        read_time isoformat fromisoformat parses nonempty "start_time" r.start_time
          (put_time isoformat fromisoformat "end_time" r.end_time (put_duration r.duration end))
          (past_time isoformat fromisoformat parses nonempty "end_time" "start_time" r.end_time
              (put_duration r.duration end) refl
            ∙ result_decode "start_time" refl)

    result_end :
        as_time isoformat fromisoformat (get_json "end_time" result_written) ≡ some r.end_time
    result_end =
        ap (λ o. as_time isoformat fromisoformat (elim o [ none ↦ null | some v ↦ v ]))
          (past_time isoformat fromisoformat parses nonempty "start_time" "end_time" r.start_time
            (put_time isoformat fromisoformat "end_time" r.end_time (put_duration r.duration end))
            refl)
        ∙ read_time isoformat fromisoformat parses nonempty "end_time" r.end_time
            (put_duration r.duration end) (result_decode "end_time" refl)

    result_duration : as_duration (get_json "duration" result_written) ≡ some r.duration
    result_duration =
        ap (λ o. as_duration (elim o [ none ↦ null | some v ↦ v ]))
          (past_time isoformat fromisoformat parses nonempty "start_time" "duration" r.start_time
              (put_time isoformat fromisoformat "end_time" r.end_time (put_duration r.duration end))
              refl
            ∙ past_time isoformat fromisoformat parses nonempty "end_time" "duration" r.end_time
                (put_duration r.duration end) refl)
        ∙ read_duration r.duration end refl

  -- Reading the dictionary of an execution result back never fails, and gives the same result with
  -- every step settled (a falsy `error` and an empty text of logs become None), where the durations
  -- are computed anew from two known instants.
  pub result_from_dict-result_to_dict :
      (r : ExecutionResult)
      → result_from_dict isoformat fromisoformat (result_to_dict isoformat fromisoformat r)
        ≡ some (settle_result r)
  result_from_dict-result_to_dict r = rw (
    result_start r,
    result_end r,
    steps_from_items-steps_to_items r.steps,
    parse_execution-execution_text r.status,
    result_duration r,
  )
