-- ===== src/Master/RetryBatch/Entries.antt =====
-- What `retry_batch_tasks` resets and hands to Kafka (apps/master/application/services/workflow_service.py).
use vanguard_runner.Base.{
  ℕ, ◌+◌, ◌<◌, ◌≡◌, refl, ap, ◌∙◌, ◌⊎◌, true, ltb, Option, none, some, List, [], ◌∷◌, map, arith,
}
use vanguard_runner.Model.{
  failed, timeout, cancelled, is_retryable, Status, TaskMessage, TaskExecution, World, Outcome,
  return, raise, Action, ◌>>=◌,
}
use vanguard_runner.Model.Frame.{Preserves}
use vanguard_runner.Model.Post.{Post, Post-bind}
use vanguard_runner.Database.{update_task_status}
use vanguard_runner.Kafka.{TaskInfo, message_for}
use vanguard_runner.Kafka.Messages.{MessageOf}
use vanguard_runner.Master.Compensation.{int_or}
use vanguard_runner.Master.Retry.{reset_task_for_retry_in_redis}
use vanguard_runner.Master.RetryBatch.{may_retry, batch_info, reset_one, reset_each}
use vanguard_runner.Master.RetryBatch.Sent.{
  HasSent, update_task_status-HasSent, reset_task_for_retry_in_redis-HasSent,
}

abbrev pub Anything : World → Type 0
Anything w = Unit

-- a number that may be missing, then 0
abbrev pub number : Option ℕ → ℕ
number none = 0
number (some n) = n

-- A task that may be retried: it failed, timed out or was cancelled, and has retries left.
pub record Eligible (t : TaskExecution) : Type 0 where
  pub over : (t.status ≡ failed) ⊎ ((t.status ≡ timeout) ⊎ (t.status ≡ cancelled))
  pub fewer : number t.retry_count < number t.max_retries

-- The message that retries a task: it names the task, and counts one retry more.
pub record Retries (t : TaskExecution) (m : TaskMessage) : Type 0 where
  pub eligible : Eligible t
  pub same_task : m.task_id ≡ t.task_id
  pub one_more : m.retry_count ≡ number t.retry_count + 1

retryable_status :
    (s : Status) → is_retryable s ≡ true → (s ≡ failed) ⊎ ((s ≡ timeout) ⊎ (s ≡ cancelled))
retryable_status s h = ground (arith, h)

int_or_zero : (o : Option ℕ) → int_or o 0 ≡ number o
int_or_zero none = refl
int_or_zero (some n) = ground arith

may_retry-Eligible : (t : TaskExecution) → may_retry t ≡ true → Eligible t
unfolding may_retry
may_retry-Eligible t h =
    let a : is_retryable t.status ≡ true = ground (arith, h) in
    let b : ltb (int_or t.retry_count 0) (int_or t.max_retries 0) ≡ true = ground (arith, h) in
    record {
      over = retryable_status t.status a;
      fewer = ground (arith, b, int_or_zero t.retry_count, int_or_zero t.max_retries);
    }

-- the message of a task's entry
pub message-Retries :
    (t : TaskExecution) (m : TaskMessage)
    → may_retry t ≡ true
    → MessageOf (batch_info t) m
    → Retries t m
unfolding message_for
message-Retries t m h (now, e) = record {
  eligible = may_retry-Eligible t h;
  same_task = ap (λ k. k.task_id) e;
  one_more = ap (λ k. k.retry_count) e ∙ ap (λ n. n + 1) (int_or_zero t.retry_count);
}

pub kept_at_end :
    {A : Type 0} (sent : List TaskMessage) (o : Outcome A × World)
    → HasSent sent o.1
    → Post o (λ _ v. HasSent sent v) Anything
kept_at_end sent (return a, w) h = h
kept_at_end sent (raise e, w) h = tt

-- A step that leaves the acknowledged messages alone.
module _ {A B : Type 0} (sent : List TaskMessage) (S : B → World → Type 0) where
  pub Post-kept :
      (m : Action A) (f : A → Action B) (w : World)
      → Preserves (HasSent sent) m
      → HasSent sent w
      → ((a : A) (v : World) → HasSent sent v → Post (f a v) S Anything)
      → Post ((m >>= f) w) S Anything
  Post-kept m f w k h go =
      Post-bind (λ _ v. HasSent sent v) S Anything m f w (kept_at_end sent (m w) (k.ends w h)) go

module _ (sent : List TaskMessage) where
  abbrev pub Infos : List TaskExecution → List TaskInfo → World → Type 0
  Infos ts infos v = (infos ≡ map batch_info ts) × HasSent sent v

  reset_one-info :
      (t : TaskExecution) (w : World)
      → HasSent sent w
      → Post (reset_one t w) (λ i v. (i ≡ batch_info t) × HasSent sent v) Anything
  unfolding reset_one
  reset_one-info t w h =
      Post-kept sent (λ i v. (i ≡ batch_info t) × HasSent sent v) (update_task_status t.task_id _) _
        w (update_task_status-HasSent sent t.task_id _) h
        (λ _ v k.
          Post-kept sent (λ i v. (i ≡ batch_info t) × HasSent sent v)
            (reset_task_for_retry_in_redis t.task_id) _ v
            (reset_task_for_retry_in_redis-HasSent sent t.task_id) k (λ _ u l. (refl, l)))

  pub reset_each-Infos :
      (ts : List TaskExecution) (w : World)
      → HasSent sent w
      → Post (reset_each ts w) (Infos ts) Anything
  unfolding reset_each
  reset_each-Infos [] w h = (refl, h)
  reset_each-Infos (t ∷ ts) w h =
      Post-bind (λ i v. (i ≡ batch_info t) × HasSent sent v) (Infos (t ∷ ts)) Anything (reset_one t)
        _ w (reset_one-info t w h)
        (λ i v k.
          Post-bind (Infos ts) (Infos (t ∷ ts)) Anything (reset_each ts) _ v
            (reset_each-Infos ts v k.1)
            (λ infos u l. (ap (λ j. j ∷ infos) k.0 ∙ ap (λ is. batch_info t ∷ is) l.0, l.1)))
