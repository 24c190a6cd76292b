-- ===== src/Routes/Stream.antt =====
-- `stream_workflow_status` (apps/master/api/routes/workflow_router.py): the events of the stream, by
-- what each poll of Redis gives.
pub mod Ending
use vanguard_runner.Base.{
  ℕ, ◌*◌, ◌/◌, String, Bool, true, false, not, ◌&&◌, ◌||◌, ◌==◌, nat_eq, Option, none, some, List,
  [], ◌∷◌, ◌++◌, map, length, count, select, take, if◌then◌else◌,
}
use vanguard_runner.Model.{Status, running, success, failed, timeout}

-- One node of `result["steps"]`, by its id and its status.
pub record Step : Type 0 where
  pub node : String
  pub status : String

-- A poll finds no hash, or the status, the progress, the hash of the result's text and the result's
-- steps (none where there is no result); or Redis raises.
pub data Poll : Type 0 where
  nothing : Poll
  snapshot : Status → ℕ → ℕ → List Step → Poll
  raises : String → Poll

-- `steps_done` carries `completed` and `total`; the percentage is their quotient as floats.
pub data Event : Type 0 where
  connected : Event
  workflow_start : Event
  workflow_end : Status → Event
  progress : ℕ → Status → Event
  node_end : Step → Event
  steps_done : ℕ → ℕ → Status → Event
  stream_end : Event
  error_event : String → Event

-- `last_status`, `last_progress` (`none` for -1) and `last_result_hash`
pub record Seen : Type 0 where
  pub last_status : Option Status
  pub last_progress : Option ℕ
  pub last_hash : Option ℕ

abbrev pub nothing_seen : Seen
nothing_seen = record { last_status = none; last_progress = none; last_hash = none }

abbrev pub status_eq : Status → Status → Bool
status_eq Status.pending Status.pending = true
status_eq running running = true
status_eq success success = true
status_eq failed failed = true
status_eq timeout timeout = true
status_eq Status.cancelled Status.cancelled = true
status_eq (Status.other s) (Status.other t) = s == t
status_eq _ _ = false

abbrev pub changed_status : Option Status → Status → Bool
changed_status none s = true
changed_status (some t) s = not (status_eq t s)

abbrev pub changed : Option ℕ → ℕ → Bool
changed none n = true
changed (some m) n = not (nat_eq m n)

-- `status in ["success", "failed", "timeout"]`
abbrev pub is_terminal : Status → Bool
is_terminal success = true
is_terminal failed = true
is_terminal timeout = true
is_terminal _ = false

abbrev pub is_running_status : Status → Bool
is_running_status running = true
is_running_status _ = false

abbrev pub is_done_step : Step → Bool
is_done_step s = s.status == "SUCCESS" || s.status == "FAILED" || s.status == "SKIPPED"

abbrev pub is_reported_step : Step → Bool
is_reported_step s = s.status == "SUCCESS" || s.status == "FAILED"

-- the events of a poll, what has then been seen, and whether the loop goes on
pub record Tick : Type 0 where
  pub events : List Event
  pub seen : Seen
  pub goes_on : Bool

-- the events of a result with steps that has changed
unfoldable pub step_events : Status → List Step → List Event
step_events s steps =
    map node_end (select is_reported_step steps)
    ++ steps_done (count is_done_step steps) (length steps) s ∷ []

-- `current_count == total_count and status in ["success", "failed"]`
abbrev pub all_done : Status → List Step → Bool
all_done s steps =
    nat_eq (count is_done_step steps) (length steps) && (status_eq s success || status_eq s failed)

-- what follows the progress event
unfoldable pub tick_steps : Seen → Status → ℕ → ℕ → List Step → Tick
unfolding step_events
tick_steps seen s n digest [] = record { events = []; seen = seen; goes_on = true }
tick_steps seen s n digest (x ∷ xs) =
    let news = changed seen.last_hash digest in
    record {
      events =
          (if news then step_events s (x ∷ xs) else [])
          ++ (if all_done s (x ∷ xs) then workflow_end s ∷ [] else []);
      seen = if news then record seen { last_hash = some digest } else seen;
      goes_on = not (all_done s (x ∷ xs));
    }

-- what follows the test of the status, which the events `before` come from
unfoldable pub tick_progress : Seen → Status → ℕ → ℕ → List Step → List Event → Tick
unfolding tick_steps
tick_progress seen s n digest steps before =
    let rest = tick_steps (record seen { last_progress = some n }) s n digest steps in
    record rest {
      events =
          before ++ (if changed seen.last_progress n then progress n s ∷ [] else []) ++ rest.events;
    }

-- one poll with a snapshot
unfoldable pub tick : Seen → Status → ℕ → ℕ → List Step → Tick
unfolding tick_progress
tick seen s n digest steps =
    if changed_status seen.last_status s
    then if is_running_status s
      then tick_progress (record seen { last_status = some s }) s n digest steps
          (workflow_start ∷ [])
      else if is_terminal s
      then record { events = workflow_end s ∷ []; seen = seen; goes_on = false }
      else tick_progress (record seen { last_status = some s }) s n digest steps []
    else tick_progress seen s n digest steps []

-- the loop over the polls that are left before the hour is over
unfoldable pub stream_from : Seen → List Poll → List Event
stream_from seen [] = stream_end ∷ []
stream_from seen (nothing ∷ ps) = stream_from seen ps
stream_from seen (raises e ∷ ps) = error_event e ∷ []
stream_from seen (snapshot s n digest steps ∷ ps) =
    let t = tick seen s n digest steps in
    let later = stream_from t.seen ps in t.events ++ (if t.goes_on then later else stream_end ∷ [])

-- 3600 seconds in steps of half a second
abbrev pub max_polls : ℕ
max_polls = 7200

unfoldable pub stream_workflow_status : List Poll → List Event
unfolding stream_from
stream_workflow_status polls = connected ∷ stream_from nothing_seen (take max_polls polls)
