-- ===== src/Master/Splitter.antt =====
-- TaskSplitter (apps/master/application/use_cases/task_splitter.py), and the validation of a
-- workflow. `uuid n` is the n-th text that uuid4 gives, and `lower` is Python's `str.lower`.
use vanguard_runner.Base.{
  ℕ, suc, String, not, ◌==◌, Option, none, some, List, [], ◌∷◌, if◌then◌else◌,
}
use vanguard_runner.Model.{
  Json, null, obj, Fields, end, field, get_field, has_field, truthy, empty_workflow,
  workflow_lacks_fields, Task, Action, pure, throw, gets, modify, ◌>>=◌, ◌>>◌, value_error,
}

-- a counter's next value stands for a fresh uuid
unfoldable pub draw : (ℕ → String) → Action String
draw uuid = do n ← gets (λ w. w.fresh); modify (λ w. record w { fresh = suc n }); pure (uuid n)

-- `d.get(key)` and `d.get(key, default)`
abbrev pub get_json : String → Json → Fields → Json
get_json k default d = elim (get_field k d) [ none ↦ default | some v ↦ v ]

-- `value or {}`
abbrev pub or_empty : Json → Json
or_empty j = if truthy j then j else obj end

module _ (uuid : ℕ → String) (lower : String → String) where
  -- `_get_priority`
  unfoldable pub get_priority : String → String
  get_priority s =
      let p = lower (if s == "" then "normal" else s) in
      if p == "urgent" then "urgent" else if p == "high" then "high" else "normal"

  -- one round of the loop of `split_batch_workflow`
  unfoldable pub split_item : String → String → String → Json → Fields → Action Task
  unfolding get_priority draw
  split_item priority author parent report_id item = do
    id ← draw uuid
    now ← gets (λ w. w.clock)
    pure (record {
      task_id = id;
      parent_task_id = parent;
      task_type = "workflow";
      priority = get_priority priority;
      payload = field "workflow" (get_json "workflow" null item) (
          field "environment" (get_json "environment" null item) (
            field "variables" (get_json "variables" (obj end) item)
              (field "runId" (get_json "runId" null item) (field "reportId" report_id end))));
      created_at = now;
      created_by = author;
    })

  -- `split_batch_workflow`, whose caller gives the parent's id
  unfoldable pub split_batch_workflow :
      List Fields → String → String → String → Json → Action (List Task)
  split_batch_workflow [] priority author parent report_id = pure []
  split_batch_workflow (item ∷ items) priority author parent report_id = do
    task ← split_item priority author parent report_id item
    tasks ← split_batch_workflow items priority author parent report_id
    pure (task ∷ tasks)

  unfoldable pub create_workflow_task : Json → Json → Json → String → String → Action Task
  unfolding get_priority draw
  create_workflow_task workflow run_id variables priority author = do
    id ← draw uuid
    now ← gets (λ w. w.clock)
    pure (record {
      task_id = id;
      parent_task_id = id;
      task_type = "workflow";
      priority = get_priority priority;
      payload =
          field "runId" run_id
            (field "workflow" workflow (field "variables" (or_empty variables) end));
      created_at = now;
      created_by = author;
    })

-- `validate_workflow_data`; the index is there for an item of a batch
unfoldable pub validate_workflow_data : Fields → Option ℕ → Action Unit
validate_workflow_data end index = throw (value_error (empty_workflow index))
validate_workflow_data (field k v d) index =
    if not (has_field "nodes" (field k v d))
    then throw (value_error (workflow_lacks_fields index))
    else if not (has_field "edges" (field k v d))
    then throw (value_error (workflow_lacks_fields index))
    else pure tt
