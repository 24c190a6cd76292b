-- ===== src/Master/Retry/Safety.antt =====
-- What `retry_task` can do to the durable rows, whatever the stores and the broker do.
use vanguard_runner.Base.{
  ℕ, ◌+◌, ◌≤◌, ◌<◌, String, true, false, leb, ◌≡◌, refl, sym, ap, ◌⊎◌, inl, inr, Option, none, some,
  List, arith, Bool-cases, leb→le,
}
use vanguard_runner.Model.{is_retryable, TaskExecution, World, try_except}
use vanguard_runner.Model.Frame.{Preserves, Preserves-bind}
use vanguard_runner.Model.Post.{Post, Post-bind, Post-step}
use vanguard_runner.Database.{query_task_by_id, update_task_status, commit}
use vanguard_runner.Database.Rows.{
  row, updated, query_task_by_id-Post, update_task_status-Post, commit-Post,
}
use vanguard_runner.Redis.Hashes.{
  IgnoresRedis, set_task_status-Preserves, update_task_field-Preserves,
}
use vanguard_runner.Kafka.{send_task}
use vanguard_runner.Master.Compensation.{get_redis_client, get_kafka_producer, int_or}
use vanguard_runner.Master.Compensation.Frame.{
  get_redis_client-Preserves, get_kafka_producer-Preserves,
}
use vanguard_runner.Master.Retry.{
  RetryResult, not_found, bad_status, exhausted, was_retried, reset_with, retry_info, redeliver,
  requeue, retry_found, retry_task, reset_task_for_retry_in_redis, undo_retry,
}

abbrev pub retries : TaskExecution → ℕ
retries t = int_or t.retry_count 0

abbrev pub limit : TaskExecution → ℕ
limit t = int_or t.max_retries 0

module _ (P : World → Type 0) (ignores : IgnoresRedis P) where
  pub reset_task_for_retry_in_redis-Preserves :
      (id : String) → Preserves P (reset_task_for_retry_in_redis id)
  unfolding reset_task_for_retry_in_redis
  reset_task_for_retry_in_redis-Preserves id =
      search
        (Preserves-bind, set_task_status-Preserves P ignores, update_task_field-Preserves P ignores)

-- The durable rows after a retry: none has changed, or the row of `id` had a retryable status and
-- fewer retries than its limit, and it alone has been reset, with one retry more.
abbrev pub RetriesOnly : String → List TaskExecution → List TaskExecution → Type 0
RetriesOnly id before after =
    (after ≡ before)
    ⊎ ((t : TaskExecution) × (row id before ≡ some t)
        × (is_retryable t.status ≡ true)
        × (retries t < limit t)
        × (after ≡ updated id (reset_with (retries t + 1)) before))

-- What each answer of `retry_task` says.
abbrev pub RetryReport : String → List TaskExecution → RetryResult → World → Type 0
RetryReport id before not_found w = w.committed ≡ before
RetryReport id before (bad_status s) w =
    (w.committed ≡ before)
    × (is_retryable s ≡ false)
    × ((t : TaskExecution) × (row id before ≡ some t) × (t.status ≡ s))
RetryReport id before (exhausted s) w =
    (w.committed ≡ before)
    × ((t : TaskExecution) × (row id before ≡ some t) × (t.status ≡ s) × (limit t ≤ retries t))
RetryReport id before (was_retried n) w =
    RetriesOnly id before w.committed
    × ((t : TaskExecution) × (row id before ≡ some t) × (n ≡ retries t + 1) × (n ≤ limit t))

module _ (id : String) (w₀ : World) where
  abbrev Spared : World → Type 0
  Spared w = RetriesOnly id w₀.committed w.committed

  abbrev Reset : World → Type 0
  Reset w = (w.committed ≡ w₀.committed) × RetriesOnly id w₀.committed w.session

  module _ (t : TaskExecution) (found : row id w₀.committed ≡ some t)
      (is : is_retryable t.status ≡ true) (few : retries t < limit t) where
    abbrev Answer : RetryResult → World → Type 0
    Answer = RetryReport id w₀.committed

    -- `send_task` returns at once, so the handler around it is never entered.
    send_task-Post :
        (w : World)
        → Spared w
        → Post
            (try_except
              (send_task (retry_info t (retries t + 1)))
              (undo_retry id (retries t + 1))
              w)
            (λ _. Spared)
            Spared
    unfolding send_task
    send_task-Post w q = q

    redeliver-Post : (w : World) → Spared w → Post (redeliver id t (retries t + 1) w) Answer Spared
    unfolding redeliver
    redeliver-Post w q =
        Post-step Spared Answer get_redis_client _ w
          (get_redis_client-Preserves Spared (λ _ _ _ h. h)) q
          (λ _ w1 q1.
            Post-step Spared Answer (reset_task_for_retry_in_redis id) _ w1
              (reset_task_for_retry_in_redis-Preserves Spared (λ _ _ _ h. h) id) q1
              (λ _ w2 q2.
                Post-step Spared Answer get_kafka_producer _ w2
                  (get_kafka_producer-Preserves Spared (λ _ _ _ h. h)) q2
                  (λ _ w3 q3.
                    Post-bind (λ _. Spared) Answer Spared
                      (try_except (send_task (retry_info t (retries t + 1)))
                        (undo_retry id (retries t + 1)))
                      _ w3 (send_task-Post w3 q3)
                      (λ _ w4 q4. (q4, (t, found, refl, omega arith))))))

    requeue-Post :
        (w : World)
        → w.committed ≡ w₀.committed
        → w.session ≡ w₀.committed
        → Post (requeue id t (retries t + 1) w) (RetryReport id w₀.committed) Spared
    unfolding requeue
    requeue-Post w c s =
        Post-bind (λ _. Reset) Answer Spared (update_task_status id (reset_with (retries t + 1))) _
          w
          (update_task_status-Post id (reset_with (retries t + 1)) w (λ _. Reset) Spared
            (λ fs. (c, inl s))
            (λ fs. (c, inr (t, found, is, few, ap (updated id (reset_with (retries t + 1))) s))))
          (λ _ w' p.
            Post-bind (λ _. Spared) Answer Spared commit _ w'
              (commit-Post w' (λ _. Spared) Spared (λ fs. p.1) (λ fs. inl p.0))
              (λ _ w'' q. redeliver-Post w'' q))

  retry_found-Post :
      (o : Option TaskExecution) (w : World)
      → (o ≡ none) ⊎ (row id w₀.committed ≡ o)
      → w.committed ≡ w₀.committed
      → w.session ≡ w₀.committed
      → Post (retry_found id o w) (RetryReport id w₀.committed) Spared
  unfolding retry_found
  retry_found-Post none w a c s = c
  retry_found-Post (some t) w (inl e) c s = absurd (cc)
  retry_found-Post (some t) w (inr e) c s = elim (Bool-cases (is_retryable t.status)) [
    | inl is ↦ elim (Bool-cases (leb (limit t) (retries t))) [
      | inl full ↦ rw (is, full) (c, (t, e, refl, leb→le _ _ full))
      | inr room ↦ rw (is, room) (requeue-Post t e is (ground arith) w c s)
    ]
    | inr isnt ↦ rw isnt (c, isnt, (t, e, refl))
  ]

  abbrev Asked : Option TaskExecution → World → Type 0
  Asked o w =
      ((o ≡ none) ⊎ (row id w₀.committed ≡ o))
      × (w.committed ≡ w₀.committed)
      × (w.session ≡ w₀.committed)

  -- From a new session and whatever the stores and the broker do: `retry_task` refuses with no durable
  -- row changed, and for the reason that the row gives; it answers with the count `n` only where the
  -- row's count was `n - 1` and `n` is within the limit; and where it retries or raises, either no
  -- durable row has changed, or the row had a retryable status and retries left, and it alone has been
  -- reset to pending with one retry more.
  pub retry_task-RetryReport :
      w₀.session ≡ w₀.committed
      → Post
          (retry_task id w₀)
          (RetryReport id w₀.committed)
          (λ w. RetriesOnly id w₀.committed w.committed)
  unfolding retry_task
  retry_task-RetryReport s =
      Post-bind Asked (RetryReport id w₀.committed) Spared (query_task_by_id id) (retry_found id) w₀
        (query_task_by_id-Post id w₀ Asked Spared (λ fs. (inl refl, refl, s))
          (λ fs. (inr (ap (row id) (sym s)), refl, s)))
        (λ o w a. retry_found-Post o w a.0 a.1 a.2)
