-- ===== src/Worker/Store/Rows.antt =====
-- The endings of a transaction of the Worker, and the rows after it.
use vanguard_runner.Base.{
  String, Bool, true, false, ◌&&◌, ◌==◌, eq_iff, ◌≡◌, refl, Option, none, some, List, [], ◌∷◌, any,
  modify_where, arith, Bool-cases, inl, inr, if◌then◌else◌,
}
use vanguard_runner.Model.{TaskExecution, World, calm, return}
use vanguard_runner.Model.Post.{Post}
use vanguard_runner.Database.{has_id}
use vanguard_runner.Database.Rows.{row, map_row}
use vanguard_runner.Worker.Store.{
  WorkerUpdate, assign, transaction, commit_update, persist_task_status, update_task_status_in_db,
}

module _ (p : TaskExecution → Bool) (f : TaskExecution → TaskExecution) (w : World)
    (Q : Bool → World → Type 0) (R : World → Type 0)
    (missed : (fs : List (Option String)) → Q false (record w { faults = fs }))
    (hit : (fs : List (Option String))
      → Q true (record w { committed = modify_where p f w.committed; faults = fs }))
    (failing : (fs : List (Option String)) → R (record w { faults = fs })) where
  commit_update-Post :
      (b : Bool) (fs : List (Option String))
      → Post (commit_update p f b (record w { faults = fs })) Q R
  unfolding commit_update
  commit_update-Post false fs = missed fs
  commit_update-Post true [] = hit []
  commit_update-Post true (none ∷ fs) = hit fs
  commit_update-Post true (some s ∷ fs) = failing fs

  transaction_with :
      (fs : List (Option String)) → Post (transaction p f (record w { faults = fs })) Q R
  unfolding transaction
  transaction_with [] = commit_update-Post (any p w.committed) []
  transaction_with (none ∷ fs) = commit_update-Post (any p w.committed) fs
  transaction_with (some s ∷ fs) = failing fs

  -- A transaction changes the rows that it matches, or nothing.
  pub transaction-Post : Post (transaction p f w) Q R
  transaction-Post = transaction_with w.faults

-- A change of the rows of one key that pass a test.
pub row-modify_where :
    (j id : String) (q : TaskExecution → Bool) (f : TaskExecution → TaskExecution)
    → ((t : TaskExecution) → (f t).task_id ≡ t.task_id)
    → (rows : List TaskExecution)
    → row j (modify_where (λ t. has_id id t && q t) f rows)
      ≡ (if id == j then map_row (λ t. if q t then f t else t) (row j rows) else row j rows)
row-modify_where j id q f keeps [] = ground arith
row-modify_where j id q f keeps (t ∷ rows) = ground (
  arith,
  row-modify_where j id q f keeps rows,
  keeps t,
  eq_iff t.task_id j,
  eq_iff t.task_id id,
  eq_iff id j,
)

modify_where-missed :
    (p : TaskExecution → Bool) (f : TaskExecution → TaskExecution) (rows : List TaskExecution)
    → any p rows ≡ false
    → modify_where p f rows ≡ rows
modify_where-missed p f [] e = refl
modify_where-missed p f (t ∷ rows) e = ground (arith, modify_where-missed p f rows)

-- Where the database does not fail, the status is written to the rows of the task.
pub update_task_status_in_db-run :
    (id : String) (u : WorkerUpdate) (w : World)
    → update_task_status_in_db id u (calm w)
      ≡ (return tt, record (calm w) { committed = modify_where (has_id id) (assign u) w.committed })
unfolding update_task_status_in_db persist_task_status transaction commit_update
update_task_status_in_db-run id u w = elim (Bool-cases (any (has_id id) w.committed)) [
  | inl e ↦ rw e refl
  | inr e ↦ rw (e, modify_where-missed (has_id id) (assign u) w.committed e) refl
]

-- the row of a task after the Worker's update
pub row-assign :
    (id : String) (u : WorkerUpdate) (rows : List TaskExecution)
    → row id (modify_where (has_id id) (assign u) rows) ≡ map_row (assign u) (row id rows)
unfolding assign
row-assign id u [] = refl
row-assign id u (t ∷ rows) = ground (arith, row-assign id u rows)
