-- ===== src/Master/Submit/Single.antt =====
-- What `submit_single_workflow` leaves in the stores where they do not fail.
use vanguard_runner.Base.{ℕ, String, Bool, true, false, ◌≡◌, if◌then◌else◌}
use vanguard_runner.Model.{Json, obj, Fields, end, field, has_field, Task, World}
use vanguard_runner.Master.Splitter.{get_priority, or_empty}

-- A workflow that the validation accepts.
abbrev pub is_valid : Fields → Bool
is_valid end = false
is_valid (field k v d) =
    if has_field "nodes" (field k v d) then has_field "edges" (field k v d) else false

module _ (uuid : ℕ → String) (lower : String → String) where
  -- the task of a submission
  abbrev pub single_task : Json → Fields → Json → String → World → Task
  single_task run_id workflow variables author w = record {
    task_id = uuid w.fresh;
    parent_task_id = uuid w.fresh;
    task_type = "workflow";
    priority = get_priority uuid lower "normal";
    payload =
        field "runId" run_id
          (field "workflow" (obj workflow) (field "variables" (or_empty variables) end));
    created_at = w.clock;
    created_by = author;
  }

module _ (uuid : ℕ → String) (lower : String → String) (run_id : Json) (workflow : Fields)
    (variables : Json) (author : String) (w : World) (valid : is_valid workflow ≡ true) where
  abbrev task : Task
  task = single_task uuid lower run_id workflow variables author w
