-- ===== src/Worker/Recovery/Safety.antt =====
-- What a recovery round can do to the durable rows, whatever the stores do.
use mathlib.Core.Path.{subst}
use vanguard_runner.Base.{
  ℕ, ◌-◌, String, Bool, true, false, ◌==◌, eq_iff, ◌≡◌, refl, sym, ap, ◌⊎◌, inl, inr, Option, some,
  List, [], ◌∷◌, map, select, modify_where, All, arith, Bool-cases, if◌then◌else◌,
}
use vanguard_runner.Model.{is_running, TaskExecution, WorkerHash, World, pure, ◌>>=◌, for_each}
use vanguard_runner.Model.Frame.{Preserves, Preserves-bind}
use vanguard_runner.Model.Post.{
  Post, Post-bind, Post-weaken, Post-Preserves, Post-ask, Post-try_except, Returns,
}
use vanguard_runner.Database.Rows.{row, map_row}
use vanguard_runner.Redis.{get_all_workers}
use vanguard_runner.Redis.Hashes.{
  IgnoresRedis, set_task_status-Preserves, update_task_field-Preserves,
}
use vanguard_runner.Master.Cancel.Batch.{IsKeyed}
use vanguard_runner.Worker.Store.{
  Recoverable, recoverable_of, recovered, is_recoverable, is_running_task, given,
  reset_task_after_recovery, query_recoverable_tasks,
}
use vanguard_runner.Worker.Store.Rows.{transaction-Post, row-modify_where}
use vanguard_runner.Worker.Recovery.{
  is_owned, reset_in_redis, recover_unowned, recover_one, recovery_round,
  recover_stale_running_tasks,
}

module _ (P : World → Type 0) (ignores : IgnoresRedis P) where
  pub reset_in_redis-Preserves : (id : String) → Preserves P (reset_in_redis id)
  unfolding reset_in_redis
  reset_in_redis-Preserves id =
      search
        (Preserves-bind, set_task_status-Preserves P ignores, update_task_field-Preserves P ignores)

-- A running row that started before the instant, and that no live worker owns.
pub record IsStale (instant : ℕ) (workers : List (String × WorkerHash)) (t : TaskExecution)
    : Type 0 where
  pub recoverable : is_recoverable instant t ≡ true
  pub unowned : is_owned workers (given t.worker_id "") ≡ false

-- One row after a recovery: as before, or stale before and reset now.
abbrev pub RowRecovered :
    ℕ → List (String × WorkerHash) → Option TaskExecution → Option TaskExecution → Type 0
RowRecovered instant workers before after =
    (after ≡ before)
    ⊎ ((t : TaskExecution) × (before ≡ some t)
        × IsStale instant workers t
        × (after ≡ some (recovered t)))

pub record RecoversStale (instant : ℕ) (workers : List (String × WorkerHash))
    (before after : List TaskExecution) : Type 0 where
  pub at : (j : String) → RowRecovered instant workers (row j before) (row j after)

pub task_id-recovered : (t : TaskExecution) → (recovered t).task_id ≡ t.task_id
unfolding recovered
task_id-recovered t = refl

not_running_again :
    (t : TaskExecution)
    → (if is_running (recovered t).status then recovered (recovered t) else recovered t)
      ≡ recovered t
unfolding recovered
not_running_again t = refl

module _ (instant : ℕ) (workers : List (String × WorkerHash)) (before : List TaskExecution) where
  module _ (t : TaskExecution) (stale : IsStale instant workers t)
      (found : row t.task_id before ≡ some t) where
    abbrev reset_row : TaskExecution → TaskExecution
    reset_row u = if is_running u.status then recovered u else u

    running : is_running t.status ≡ true
    unfolding is_recoverable
    running = ground (arith, stale.recoverable)

    row_recovered :
        (j : String) (o : Option TaskExecution)
        → t.task_id ≡ j
        → RowRecovered instant workers (row j before) o
        → RowRecovered instant workers (row j before) (map_row reset_row o)
    row_recovered j o e (inl same) =
        inr (t, rw (← e) found, stale, rw (same, ← e, found, running) refl)
    row_recovered j o e (inr (s, b, p, a)) = inr (s, b, p, rw a (ap some (not_running_again s)))

    reset_row-RecoversStale :
        (rows : List TaskExecution)
        → RecoversStale instant workers before rows
        → RecoversStale instant workers before
            (modify_where (is_running_task t.task_id) recovered rows)
    reset_row-RecoversStale rows h = record {
      at = λ j.
          rw
            (row-modify_where j t.task_id (λ u. is_running u.status) recovered task_id-recovered
              rows)
            (elim (Bool-cases (t.task_id == j)) [
              | inl e ↦ rw e (row_recovered j (row j rows) ((eq_iff t.task_id j).0 e) (h.at j))
              | inr e ↦ rw e (h.at j)
            ]);
    }

  -- what holds after each step of the round
  pub record Recovering (w : World) : Type 0 where
    pub recovers : RecoversStale instant workers before w.committed

  -- A task that the query gave: it was stale if no live worker owns it.
  abbrev pub WasFound : TaskExecution → Type 0
  WasFound t = (row t.task_id before ≡ some t) × (is_recoverable instant t ≡ true)

  recover_unowned-Preserves :
      (t : TaskExecution)
      → WasFound t
      → (b : Bool) → is_owned workers (given t.worker_id "") ≡ b
      → (w : World) → Recovering w
      → Post (recover_unowned t.task_id b w) (λ _. Recovering) Recovering
  unfolding recover_unowned reset_task_after_recovery
  recover_unowned-Preserves t f true e w h = h
  recover_unowned-Preserves t f false e w h =
      Post-bind (λ _. Recovering) (λ _. Recovering) Recovering (reset_task_after_recovery t.task_id)
        _ w
        (transaction-Post (is_running_task t.task_id) recovered w (λ _. Recovering) Recovering
          (λ fs. record { recovers = h.recovers })
          (λ fs. record {
            recovers =
                reset_row-RecoversStale t (record { recoverable = f.1; unowned = e }) f.0
                  w.committed h.recovers;
          })
          (λ fs. record { recovers = h.recovers }))
        (λ success w' h'. after success w' h')
    where
      after :
          (success : Bool) (w : World)
          → Recovering w
          → Post
              ((if success then reset_in_redis t.task_id else pure tt) w)
              (λ _. Recovering)
              Recovering
      after false w h = h
      after true w h =
          Post-Preserves Recovering (reset_in_redis t.task_id) w
            (reset_in_redis-Preserves Recovering (λ _ _ _ h. record { recovers = h.recovers })
              t.task_id)
            h

  recover_each-Preserves :
      (ts : List TaskExecution) (w : World)
      → All WasFound ts
      → Recovering w
      → Post (for_each (map recoverable_of ts) (recover_one workers) w) (λ _. Recovering) Recovering
  unfolding for_each recover_one
  recover_each-Preserves [] w fs h = h
  recover_each-Preserves (t ∷ ts) w fs h =
      Post-bind (λ _. Recovering) (λ _. Recovering) Recovering
        (recover_one workers (recoverable_of t)) _ w
        (recover_unowned-Preserves t fs.0 (is_owned workers (given t.worker_id "")) refl w h)
        (λ _ w' h'. recover_each-Preserves ts w' fs.1 h')

-- The rows that a selection gives are found by their keys and pass its test.
select-found :
    (p : TaskExecution → Bool) (before rows : List TaskExecution)
    → All (λ t. row t.task_id before ≡ some t) rows
    → All (λ t. (row t.task_id before ≡ some t) × (p t ≡ true)) (select p rows)
select-found p before [] k = tt
select-found p before (t ∷ rows) k = elim (Bool-cases (p t)) [
  | inl e ↦ rw e ((k.0, e), select-found p before rows k.1)
  | inr e ↦ rw e (select-found p before rows k.1)
]

module _ (min_age : ℕ) (w₀ : World) (keyed : IsKeyed w₀.committed) where
  abbrev instant : ℕ
  instant = w₀.clock - min_age

  abbrev InRound : World → Type 0
  InRound = Recovering instant w₀.workers w₀.committed

  unchanged : (w : World) → w.committed ≡ w₀.committed → InRound w
  unchanged w e = record { recovers = record { at = λ j. inl (rw e refl) } }

  -- The query's answer, before any write.
  abbrev Asked : List Recoverable → World → Type 0
  Asked rs w =
      (rs ≡ map recoverable_of (select (is_recoverable instant) w₀.committed))
      × (w.committed ≡ w₀.committed)

  abbrev Listed : List (String × WorkerHash) → World → Type 0
  Listed workers w = (workers ≡ w₀.workers) × (w.committed ≡ w₀.committed)

  recover_each_of :
      (rs : List Recoverable) (w : World)
      → Asked rs w
      → Post (for_each rs (recover_one w₀.workers) w) (λ _. InRound) InRound
  recover_each_of rs w a =
      subst (λ rs'. Post (for_each rs' (recover_one w₀.workers) w) (λ _. InRound) InRound) (sym a.0)
        (recover_each-Preserves instant w₀.workers w₀.committed
          (select (is_recoverable instant) w₀.committed) w
          (select-found (is_recoverable instant) w₀.committed w₀.committed keyed) (unchanged w a.1))

  query_and_recover :
      (workers : List (String × WorkerHash)) (w : World)
      → Listed workers w
      → Post
          ((query_recoverable_tasks instant >>= λ rs. for_each rs (recover_one workers)) w)
          (λ _. InRound)
          InRound
  unfolding query_recoverable_tasks
  query_and_recover workers w l =
      subst
        (λ ws.
          Post ((query_recoverable_tasks instant >>= λ rs. for_each rs (recover_one ws)) w)
            (λ _. InRound) InRound)
        (sym l.0)
        (Post-bind Asked (λ _. InRound) InRound (query_recoverable_tasks instant) _ w
          (Post-ask (λ v. map recoverable_of (select (is_recoverable instant) v.committed)) w Asked
            InRound (λ fs. (rw l.1 refl, l.1)) (λ fs. unchanged (record w { faults = fs }) l.1))
          recover_each_of)

  recovery_round-Post : Post (recovery_round min_age w₀) (λ _. InRound) InRound
  unfolding recovery_round get_all_workers
  recovery_round-Post =
      Post-bind Listed (λ _. InRound) InRound get_all_workers _ w₀
        (Post-ask (λ v. v.workers) w₀ Listed InRound (λ fs. (refl, refl))
          (λ fs. unchanged (record w₀ { faults = fs }) refl))
        query_and_recover

  -- Whatever the stores do, a round of the recovery over keyed rows returns, and each durable row
  -- is then as it was before, or it was running before the instant, with no worker or with one that
  -- Redis does not list, and has been reset to `pending`.
  pub recover_stale_running_tasks-RecoversStale :
      Returns
        (recover_stale_running_tasks min_age w₀)
        (λ _ w. RecoversStale (w₀.clock - min_age) w₀.workers w₀.committed w.committed)
  unfolding recover_stale_running_tasks
  recover_stale_running_tasks-RecoversStale =
      Post-try_except Recovers InRound (λ w. ⊥) (recovery_round min_age) (λ _. pure tt) w₀
        (Post-weaken (λ _. InRound) Recovers InRound InRound (recovery_round min_age w₀)
          recovery_round-Post (λ _ w h. h.recovers) (λ w h. h))
        (λ _ w h. h.recovers)
    where
      Recovers : Unit {0} → World → Type 0
      Recovers _ w = RecoversStale instant w₀.workers w₀.committed w.committed
