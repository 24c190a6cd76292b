-- ===== src/Worker/Slots/Balance.antt =====
-- `execute_task_with_semaphore` and the number of tasks in the hash of its worker.
use vanguard_runner.Base.{
  ℕ, ◌+◌, ◌-◌, ◌≡◌, refl, sym, String, eq_refl, false, nat_eq, Option, none, some, List, [], ◌∷◌,
  arith, if◌then◌else◌,
}
use mathlib.Core.Path.{subst}
use vanguard_runner.Model.{WorkerHash, World, calm, Action, ◌>>◌, at, timeout, task_timeout_after}
use vanguard_runner.Model.Post.{Returns, Post-bind, Post-try_except}
use vanguard_runner.Redis.{
  FieldWrite, put_status, put_progress, put_finished_at, put_error_message, update_task_field,
}
use vanguard_runner.Worker.Store.{WorkerUpdate, given, commit_offset, update_task_status_in_db}
use vanguard_runner.Worker.Store.Rows.{update_task_status_in_db-run}
use vanguard_runner.Worker.Execution.{TaskData, finished_update}
use vanguard_runner.Worker.Slots.{
  Received, commit_message, status_of, read_status, is_claimed_already, at_worker, tasks_of,
  put_worker_status, put_current_tasks, write_worker, read_current_tasks, take_slot, free_slot,
  run_until, run_unclaimed, time_out_task, execute_task_with_semaphore,
}

tasks_of-put_current_tasks :
    (id : String) (n : ℕ) (ws : List (String × WorkerHash))
    → tasks_of id (at_worker id (put_current_tasks n) ws) ≡ some n
tasks_of-put_current_tasks id n [] = rw (eq_refl id) refl
tasks_of-put_current_tasks id n ((k, h) ∷ ws) = ground (arith, tasks_of-put_current_tasks id n ws)

-- A calm world where the worker counts `n` tasks.
pub record Counts (worker : String) (n : ℕ) (w : World) : Type 0 where
  pub no_faults : w.faults ≡ []
  pub tasks : tasks_of worker w.workers ≡ some n

take_slot-Counts :
    (worker : String) (w : World)
    → Returns
        (take_slot worker (calm w))
        (λ _. Counts worker (given (tasks_of worker w.workers) 0 + 1))
unfolding take_slot read_current_tasks write_worker
take_slot-Counts worker w = record {
  no_faults = refl;
  tasks =
      tasks_of-put_current_tasks worker (given (tasks_of worker w.workers) 0 + 1)
        (at_worker worker (put_worker_status "busy") w.workers);
}

free_slot-Counts :
    (worker : String) (n : ℕ) (w : World)
    → tasks_of worker w.workers ≡ some n
    → Returns (free_slot worker (calm w)) (λ _. Counts worker (n - 1))
unfolding free_slot read_current_tasks write_worker
free_slot-Counts worker n w e = rw e (record {
  no_faults = refl;
  tasks = tasks_of-put_current_tasks worker (n - 1) (
      at_worker worker (put_worker_status (if nat_eq (n - 1) 0 then "idle" else "busy")) w.workers);
})

commit_message-Counts :
    (msg : Option Received) (worker : String) (n : ℕ) (w : World)
    → tasks_of worker w.workers ≡ some n
    → Returns (commit_message msg (calm w)) (λ _. Counts worker n)
unfolding commit_message commit_offset
commit_message-Counts none worker n w e = record { no_faults = refl; tasks = e }
commit_message-Counts (some m) worker n w e = record { no_faults = refl; tasks = e }

-- An action that keeps the count of the worker where no store fails.
abbrev pub KeepsCount : String → Action Unit → Type 0
KeepsCount worker m = (v : World) (n : ℕ) → Counts worker n v → Returns (m v) (λ _. Counts worker n)

-- What holds on calm worlds holds on a world with no faults.
from_calm :
    (worker : String) (n n' : ℕ) (m : Action Unit)
    → ((v : World)
        → tasks_of worker v.workers ≡ some n
        → Returns (m (calm v)) (λ _. Counts worker n'))
    → (v : World) → Counts worker n v
    → Returns (m v) (λ _. Counts worker n')
from_calm worker n n' m k v c =
    subst (λ fs. Returns (m (record v { faults = fs })) (λ _. Counts worker n')) (sym c.no_faults)
      (k v c.tasks)

module _ (worker : String) where
  KeepsCount-then :
      (m k : Action Unit) → KeepsCount worker m → KeepsCount worker k → KeepsCount worker (m >> k)
  KeepsCount-then m k hm hk v n c =
      Post-bind (λ _. Counts worker n) (λ _. Counts worker n) (λ w. ⊥) m (λ _. k) v (hm v n c)
        (λ _ v' c'. hk v' n c')

  pub update_task_field-KeepsCount :
      (id : String) (f : FieldWrite) → KeepsCount worker (update_task_field id f)
  unfolding update_task_field
  update_task_field-KeepsCount id f v n c =
      from_calm worker n n (update_task_field id f) (λ u e. record { no_faults = refl; tasks = e })
        v c

  update_task_status_in_db-KeepsCount :
      (id : String) (u : WorkerUpdate) → KeepsCount worker (update_task_status_in_db id u)
  update_task_status_in_db-KeepsCount id u v n c =
      from_calm worker n n (update_task_status_in_db id u)
        (λ w e. rw (update_task_status_in_db-run id u w) (record { no_faults = refl; tasks = e })) v
        c

  commit_message-KeepsCount : (msg : Option Received) → KeepsCount worker (commit_message msg)
  commit_message-KeepsCount msg v n c =
      from_calm worker n n (commit_message msg) (commit_message-Counts msg worker n) v c

  time_out_task-KeepsCount :
      (seconds : ℕ) (id : String) (msg : Option Received)
      → KeepsCount worker (time_out_task seconds worker id msg)
  unfolding time_out_task
  time_out_task-KeepsCount seconds id msg v n c =
      KeepsCount-then _ _ (update_task_field-KeepsCount id (put_status timeout))
        (KeepsCount-then _ _ (update_task_field-KeepsCount id (put_progress 100)) (
          KeepsCount-then _ _ (update_task_field-KeepsCount id (put_finished_at (at v.clock))) (
            KeepsCount-then _ _
              (update_task_field-KeepsCount id (put_error_message (task_timeout_after seconds)))
              (KeepsCount-then _ _
                (update_task_status_in_db-KeepsCount id
                  (finished_update timeout worker v.clock (task_timeout_after seconds)))
                (commit_message-KeepsCount msg)))))
        v n c

module _ (seconds : ℕ) (run : String → TaskData → Action Unit)
    (deadline : TaskData → Option (World → World)) (worker : String) (d : TaskData)
    (msg : Option Received) (runs : KeepsCount worker (run worker d))
    (interrupts : (f : World → World) (v : World) (n : ℕ)
      → deadline d ≡ some f
      → Counts worker n v
      → Counts worker n (f v)) where
  run_until-Counts :
      (o : Option (World → World)) (n : ℕ) (v : World)
      → deadline d ≡ o
      → Counts worker n v
      → Returns (run_until seconds run deadline worker d msg o v) (λ _. Counts worker n)
  unfolding run_until
  run_until-Counts none n v e c =
      Post-bind (λ _. Counts worker n) (λ _. Counts worker n) (λ w. ⊥) (run worker d) _ v
        (runs v n c) (λ _ v' c'. commit_message-KeepsCount worker msg v' n c')
  run_until-Counts (some f) n v e c =
      time_out_task-KeepsCount worker seconds d.task_id msg (f v) n (interrupts f v n e c)

  module _ (w : World)
      (unclaimed : is_claimed_already (status_of (w.redis d.task_id)) ≡ false) where
    abbrev before : ℕ
    before = given (tasks_of worker w.workers) 0

    run_unclaimed-Counts :
        Returns
          (run_unclaimed seconds run deadline worker d msg false (calm w))
          (λ _. Counts worker (before + 1 - 1))
    unfolding run_unclaimed
    run_unclaimed-Counts =
        Post-bind (λ _. Counts worker (before + 1)) (λ _. Counts worker (before + 1 - 1)) (λ v. ⊥)
          (take_slot worker) _ (calm w) (take_slot-Counts worker w)
          (λ _ v c.
            Post-bind (λ _. Counts worker (before + 1)) (λ _. Counts worker (before + 1 - 1))
              (λ u. ⊥) (run_until seconds run deadline worker d msg (deadline d)) _ v
              (run_until-Counts (deadline d) (before + 1) v refl c)
              (λ _ u c'.
                from_calm worker (before + 1) (before + 1 - 1) (free_slot worker)
                  (free_slot-Counts worker (before + 1)) u c'))

    -- Where no store fails, a task that is not claimed returns its slot, on time or not: the worker
    -- counts as many tasks as before, a missing count being 0. The condition is that the run of the
    -- task, where nothing fails, returns rather than raises, leaves nothing to fail later, and leaves
    -- the count alone; and that what an interrupted run does up to its deadline leaves the count alone
    -- and nothing to fail later.
    pub execute_task_with_semaphore-Counts :
        Returns
          (execute_task_with_semaphore seconds run deadline worker d msg (calm w))
          (λ _. Counts worker (given (tasks_of worker w.workers) 0))
    unfolding execute_task_with_semaphore read_status
    execute_task_with_semaphore-Counts = rw unclaimed (
        Post-try_except (λ _. Counts worker before) (λ v. ⊥) (λ v. ⊥)
          (run_unclaimed seconds run deadline worker d msg false) _ (calm w)
          (subst
            (λ k.
              Returns (run_unclaimed seconds run deadline worker d msg false (calm w))
                (λ _. Counts worker k))
            (omega arith) run_unclaimed-Counts)
          (λ e v b. elim b [ ]))
