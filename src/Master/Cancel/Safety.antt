-- ===== src/Master/Cancel/Safety.antt =====
-- What `cancel_task` can do to the durable rows, whatever the stores do.
use vanguard_runner.Base.{
  ℕ, String, true, false, ◌≡◌, refl, sym, ap, ◌⊎◌, inl, inr, Option, none, some, List, Bool-cases,
}
use vanguard_runner.Model.{is_pending, cancelled_before_execution, TaskExecution, World}
use vanguard_runner.Model.Frame.{Preserves, Preserves-bind, Preserves-gets}
use vanguard_runner.Model.Post.{Post, Post-bind, Post-step}
use vanguard_runner.Database.{query_task_by_id, update_task_status, commit}
use vanguard_runner.Database.Rows.{
  row, updated, query_task_by_id-Post, update_task_status-Post, commit-Post,
}
use vanguard_runner.Redis.Hashes.{
  IgnoresRedis, set_task_status-Preserves, update_task_field-Preserves,
}
use vanguard_runner.Master.Compensation.{get_redis_client}
use vanguard_runner.Master.Compensation.Frame.{get_redis_client-Preserves}
use vanguard_runner.Master.Cancel.{
  CancelResult, not_found, not_cancelled, was_cancelled, cancellation, cancel_pending, cancel_found,
  cancel_task, mark_task_cancelled_in_redis,
}

module _ (P : World → Type 0) (ignores : IgnoresRedis P) where
  pub mark_task_cancelled_in_redis-Preserves :
      (id : String) → Preserves P (mark_task_cancelled_in_redis id cancelled_before_execution)
  unfolding mark_task_cancelled_in_redis
  mark_task_cancelled_in_redis-Preserves id = search (
    Preserves-bind,
    Preserves-gets,
    set_task_status-Preserves P ignores,
    update_task_field-Preserves P ignores,
  )

-- The durable rows after a cancellation of `id` at the instant `now`: none has changed, or `id` was
-- pending and its row alone has been cancelled.
abbrev pub CancelsOnly : String → ℕ → List TaskExecution → List TaskExecution → Type 0
CancelsOnly id now before after =
    (after ≡ before)
    ⊎ ((t : TaskExecution) × (row id before ≡ some t)
        × (is_pending t.status ≡ true)
        × (after ≡ updated id (cancellation now) before))

-- What each answer of `cancel_task` says.
abbrev pub CancelReport : String → ℕ → List TaskExecution → CancelResult → World → Type 0
CancelReport id now before not_found w = w.committed ≡ before
CancelReport id now before (not_cancelled s) w =
    (w.committed ≡ before)
    × (is_pending s ≡ false)
    × ((t : TaskExecution) × (row id before ≡ some t) × (t.status ≡ s))
CancelReport id now before was_cancelled w = CancelsOnly id now before w.committed

module _ (id : String) (w₀ : World) where
  abbrev Spared : World → Type 0
  Spared w = CancelsOnly id w₀.clock w₀.committed w.committed

  -- the session before the commit
  abbrev Pending : World → Type 0
  Pending w = (w.committed ≡ w₀.committed) × CancelsOnly id w₀.clock w₀.committed w.session

  cancel_pending-Post :
      (t : TaskExecution) (w : World)
      → row id w₀.committed ≡ some t
      → is_pending t.status ≡ true
      → w.committed ≡ w₀.committed
      → w.session ≡ w₀.committed
      → w.clock ≡ w₀.clock
      → Post (cancel_pending id w) (CancelReport id w₀.clock w₀.committed) Spared
  unfolding cancel_pending
  cancel_pending-Post t w found is c s k =
      Post-bind (λ _. Pending) (CancelReport id w₀.clock w₀.committed) Spared
        (update_task_status id (cancellation w.clock)) _ w
        (update_task_status-Post id (cancellation w.clock) w (λ _. Pending) Spared
          (λ fs. (c, inl s)) (λ fs. (c, inr (t, found, is, rw (s, k) refl))))
        (λ _ w' p.
          Post-bind (λ _. Spared) (CancelReport id w₀.clock w₀.committed) Spared commit _ w'
            (commit-Post w' (λ _. Spared) Spared (λ fs. p.1) (λ fs. inl p.0))
            (λ _ w'' q.
              Post-step Spared (CancelReport id w₀.clock w₀.committed) get_redis_client _ w''
                (get_redis_client-Preserves Spared (λ _ _ _ h. h)) q
                (λ _ w3 q3.
                  Post-step Spared (CancelReport id w₀.clock w₀.committed)
                    (mark_task_cancelled_in_redis id cancelled_before_execution) _ w3
                    (mark_task_cancelled_in_redis-Preserves Spared (λ _ _ _ h. h) id) q3
                    (λ _ w4 q4. q4))))

  cancel_found-Post :
      (o : Option TaskExecution) (w : World)
      → (o ≡ none) ⊎ (row id w₀.committed ≡ o)
      → w.committed ≡ w₀.committed
      → w.session ≡ w₀.committed
      → w.clock ≡ w₀.clock
      → Post (cancel_found id o w) (CancelReport id w₀.clock w₀.committed) Spared
  unfolding cancel_found
  cancel_found-Post none w a c s k = c
  cancel_found-Post (some t) w (inl e) c s k = absurd (cc)
  cancel_found-Post (some t) w (inr e) c s k = elim (Bool-cases (is_pending t.status)) [
    | inl is ↦ rw is (cancel_pending-Post t w e is c s k)
    | inr isnt ↦ rw isnt (c, isnt, (t, e, refl))
  ]

  abbrev Asked : Option TaskExecution → World → Type 0
  Asked o w =
      ((o ≡ none) ⊎ (row id w₀.committed ≡ o))
      × (w.committed ≡ w₀.committed)
      × (w.session ≡ w₀.committed)
      × (w.clock ≡ w₀.clock)

  -- From a new session and whatever the stores do: `cancel_task` answers "not found" or "not
  -- cancelled" with no durable row changed, the latter only for a row that is not pending; and where
  -- it answers "cancelled" or raises, either no durable row has changed, or the row of the id was
  -- pending and it alone has been cancelled.
  pub cancel_task-CancelReport :
      w₀.session ≡ w₀.committed
      → Post
          (cancel_task id w₀)
          (CancelReport id w₀.clock w₀.committed)
          (λ w. CancelsOnly id w₀.clock w₀.committed w.committed)
  unfolding cancel_task
  cancel_task-CancelReport s =
      Post-bind Asked (CancelReport id w₀.clock w₀.committed) Spared (query_task_by_id id)
        (cancel_found id) w₀
        (query_task_by_id-Post id w₀ Asked Spared (λ fs. (inl refl, refl, s, refl))
          (λ fs. (inr (ap (row id) (sym s)), refl, s, refl)))
        (λ o w a. cancel_found-Post o w a.0 a.1 a.2 a.3)
