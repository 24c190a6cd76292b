-- ===== src/Database/Rows.antt =====
-- Rows by their primary key, and what the repository's methods do to them.
use vanguard_runner.Base.{
  String, Bool, true, false, ◌==◌, eq_iff, ◌≡◌, Option, none, some, List, [], ◌∷◌, find, select,
  modify_where, arith, if◌then◌else◌,
}
use vanguard_runner.Model.{TaskExecution, World, pure, try_except}
use vanguard_runner.Model.Post.{Post}
use vanguard_runner.Database.{
  has_id, StatusUpdate, apply_update, update_found, update_task_status, query_task_by_id,
  query_tasks_by_parent_id, commit,
}

abbrev pub row : String → List TaskExecution → Option TaskExecution
row id = find (has_id id)

-- the rows after an update that finds its row
abbrev pub updated : String → StatusUpdate → List TaskExecution → List TaskExecution
updated id u = modify_where (has_id id) (apply_update u)

-- An update keeps the key.
pub task_id-apply_update :
    (u : StatusUpdate) (t : TaskExecution) → (apply_update u t).task_id ≡ t.task_id
unfolding apply_update
task_id-apply_update u t = ground arith

abbrev pub map_row : (TaskExecution → TaskExecution) → Option TaskExecution → Option TaskExecution
map_row f none = none
map_row f (some t) = some (f t)

pub row-updated :
    (j id : String) (u : StatusUpdate) (rows : List TaskExecution)
    → row j (updated id u rows)
      ≡ (if id == j then map_row (apply_update u) (row j rows) else row j rows)
row-updated j id u [] = ground arith
row-updated j id u (t ∷ rows) = ground (
  arith,
  row-updated j id u rows,
  task_id-apply_update u t,
  eq_iff t.task_id j,
  eq_iff t.task_id id,
  eq_iff id j,
)

-- A row that is found has the key that was asked for.
pub task_id-row :
    (id : String) (rows : List TaskExecution) (t : TaskExecution)
    → row id rows ≡ some t
    → t.task_id ≡ id
task_id-row id [] t e = ground arith
task_id-row id (s ∷ rows) t e = ground (arith, eq_iff s.task_id id, task_id-row id rows t)

module _ (id : String) (u : StatusUpdate) (w : World) (Q : Bool → World → Type 0)
    (R : World → Type 0) (missed : (fs : List (Option String)) → Q false (record w { faults = fs }))
    (hit : (fs : List (Option String))
      → Q true (record w { session = updated id u w.session; faults = fs })) where
  update_found-Post :
      (o : Option TaskExecution) (fs : List (Option String))
      → Post (try_except (update_found id u o) (λ _. pure false) (record w { faults = fs })) Q R
  unfolding update_found
  update_found-Post none fs = missed fs
  update_found-Post (some t) fs = hit fs

  update_with-Post :
      (fs : List (Option String)) → Post (update_task_status id u (record w { faults = fs })) Q R
  unfolding update_task_status
  update_with-Post [] = update_found-Post (row id w.session) []
  update_with-Post (none ∷ fs) = update_found-Post (row id w.session) fs
  update_with-Post (some s ∷ fs) = missed fs

  -- `update_task_status` never raises: it changes the session's row, or nothing at all.
  pub update_task_status-Post : Post (update_task_status id u w) Q R
  update_task_status-Post = update_with-Post w.faults

module _ (id : String) (w : World) (Q : Option TaskExecution → World → Type 0) (R : World → Type 0)
    (failing : (fs : List (Option String)) → Q none (record w { faults = fs }))
    (answering : (fs : List (Option String))
      → Q (row id w.session) (record w { faults = fs })) where
  query_with-Post :
      (fs : List (Option String)) → Post (query_task_by_id id (record w { faults = fs })) Q R
  unfolding query_task_by_id
  query_with-Post [] = answering []
  query_with-Post (none ∷ fs) = answering fs
  query_with-Post (some s ∷ fs) = failing fs

  -- `query_task_by_id` gives the row of the session, or nothing where the database fails.
  pub query_task_by_id-Post : Post (query_task_by_id id w) Q R
  query_task_by_id-Post = query_with-Post w.faults

module _ (parent : String) (w : World) (Q : List TaskExecution → World → Type 0)
    (R : World → Type 0) (failing : (fs : List (Option String)) → Q [] (record w { faults = fs }))
    (answering : (fs : List (Option String))
      → Q (select (λ t. t.parent_task_id == parent) w.session) (record w { faults = fs })) where
  children_with-Post :
      (fs : List (Option String))
      → Post (query_tasks_by_parent_id parent (record w { faults = fs })) Q R
  unfolding query_tasks_by_parent_id
  children_with-Post [] = answering []
  children_with-Post (none ∷ fs) = answering fs
  children_with-Post (some s ∷ fs) = failing fs

  pub query_tasks_by_parent_id-Post : Post (query_tasks_by_parent_id parent w) Q R
  query_tasks_by_parent_id-Post = children_with-Post w.faults

module _ (w : World) (Q : Unit {0} → World → Type 0) (R : World → Type 0)
    (durable : (fs : List (Option String)) → Q tt (record w { committed = w.session; faults = fs }))
    (failing : (fs : List (Option String)) → R (record w { faults = fs })) where
  commit_with-Post : (fs : List (Option String)) → Post (commit (record w { faults = fs })) Q R
  unfolding commit
  commit_with-Post [] = durable []
  commit_with-Post (none ∷ fs) = durable fs
  commit_with-Post (some s ∷ fs) = failing fs

  pub commit-Post : Post (commit w) Q R
  commit-Post = commit_with-Post w.faults
