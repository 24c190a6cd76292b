-- ===== src/Master/RetryBatch/Counts.antt =====
-- The counts that `retry_batch_tasks` returns, and the messages that it sends
-- (apps/master/application/services/workflow_service.py).
use mathlib.Core.List.{append-nil}
use vanguard_runner.Base.{
  ℕ, suc, ◌+◌, ◌-◌, ◌≤◌, ◌≡◌, refl, sym, ap, ◌∙◌, ◌⊎◌, inl, inr, String, Bool, ◌==◌, Option, none,
  some, List, [], ◌∷◌, ◌++◌, map, length, count, select, arith, count≤length,
}
use mathlib.Core.Path.{subst}
use vanguard_runner.Model.{TaskMessage, TaskExecution, World, pure, ◌>>=◌}
use vanguard_runner.Model.Post.{Post, Post-bind, Post-weaken}
use vanguard_runner.Database.{query_tasks_by_parent_id, commit}
use vanguard_runner.Database.Rows.{query_tasks_by_parent_id-Post}
use vanguard_runner.Kafka.{TaskInfo, SendResult, send_tasks_batch, nothing_sent}
use vanguard_runner.Kafka.Messages.{
  Part, ended, MessageOf, Part-map, Part-select, Sends, send_tasks_batch-Sends,
}
use vanguard_runner.Master.Cancel.{BatchCount}
use vanguard_runner.Master.Compensation.{get_redis_client, get_kafka_producer}
use vanguard_runner.Master.RetryBatch.{
  may_retry, batch_info, reset_each, compensate_retry, requeue_all, retry_selected,
  retry_batch_found, retry_batch_tasks,
}
use vanguard_runner.Master.RetryBatch.Sent.{
  HasSent, commit-HasSent, get_redis_client-HasSent, get_kafka_producer-HasSent,
  compensate_retry-HasSent,
}
use vanguard_runner.Master.RetryBatch.Entries.{
  Anything, Retries, message-Retries, Post-kept, Infos, reset_each-Infos,
}

length-map : {A B : Type 0} (f : A → B) (xs : List A) → length (map f xs) ≡ length xs
length-map f [] = refl
length-map f (x ∷ xs) = ap (λ n. suc n) (length-map f xs)

-- What a batch retry of some tasks did: its counts, and the messages that it added.
pub record RetryCounts (children : List TaskExecution) (sent : List TaskMessage) (c : BatchCount)
    (w : World) : Type 0 where
  pub same_total : c.total ≡ length children
  pub all_counted : c.done + c.skipped ≡ c.total
  pub messages : List TaskMessage
  pub acknowledged : w.sent ≡ sent ++ messages
  pub retried : c.done ≡ length messages
  pub for_tasks : Part Retries children messages

-- the same for the tasks that passed the test, of `total`
record Requeued (total : ℕ) (ts : List TaskExecution) (sent : List TaskMessage) (c : BatchCount)
    (w : World) : Type 0 where
  pub same_total : c.total ≡ total
  pub all_counted : c.done + c.skipped ≡ total
  pub messages : List TaskMessage
  pub acknowledged : w.sent ≡ sent ++ messages
  pub retried : c.done ≡ length messages
  pub for_tasks : Part MessageOf (map batch_info ts) messages

module _ (sent : List TaskMessage) (total : ℕ) (ts : List TaskExecution)
    (h : length ts ≤ total) where
  abbrev Goal : BatchCount → World → Type 0
  Goal = Requeued total ts sent

  compensated :
      (infos : List TaskInfo) (v : World) (r : SendResult) (u : World)
      → Infos sent ts infos v
      → Sends infos nothing_sent v r u
      → Post
          ((compensate_retry ts r >>= (λ _.
              pure (record {
                done = r.success;
                skipped = total - length ts + r.failed;
                total = total;
              })))
            u)
          Goal
          Anything
  compensated infos v r u (e, k) a =
      let n : length infos ≡ length ts = ap length e ∙ length-map batch_info ts in
      Post-kept u.sent Goal (compensate_retry ts r) _ u (compensate_retry-HasSent u.sent ts r) refl
        (λ _ x l. record {
          same_total = refl;
          all_counted = omega (arith, a.total, n, h);
          messages = a.messages;
          acknowledged = l ∙ (a.acknowledged ∙ ap (λ ms. ms ++ a.messages) k);
          retried = omega (arith, a.successes);
          for_tasks = subst (λ is. Part MessageOf is a.messages) e a.for_tasks;
        })

  requeue_all-Requeued : (w : World) → HasSent sent w → Post (requeue_all total ts w) Goal Anything
  unfolding requeue_all
  requeue_all-Requeued w s =
      Post-kept sent Goal get_redis_client _ w (get_redis_client-HasSent sent) s (λ _ w1 s1.
        Post-bind (Infos sent ts) Goal Anything (reset_each ts) _ w1
          (reset_each-Infos sent ts w1 s1)
          (λ infos w2 (e, s2). Post-kept sent Goal commit _ w2 (commit-HasSent sent) s2 (λ _ w3 s3.
            Post-kept sent Goal get_kafka_producer _ w3 (get_kafka_producer-HasSent sent) s3
              (λ _ w4 s4.
                Post-bind (Sends infos nothing_sent w4) Goal Anything (send_tasks_batch infos) _ w4
                  (Post-weaken (Sends infos nothing_sent w4) (Sends infos nothing_sent w4) (λ v. ⊥)
                    Anything (send_tasks_batch infos w4) (send_tasks_batch-Sends infos w4)
                    (λ _ _ a. a) (λ _ b. tt))
                  (λ r w5 a. compensated infos w4 r w5 (e, s4) a)))))

retry_selected-Requeued :
    (sent : List TaskMessage) (total : ℕ) (ts : List TaskExecution) (w : World)
    → length ts ≤ total
    → HasSent sent w
    → Post (retry_selected total ts w) (Requeued total ts sent) Anything
unfolding retry_selected
retry_selected-Requeued sent total [] w h s = record {
  same_total = refl;
  all_counted = omega arith;
  messages = [];
  acknowledged = s ∙ sym (append-nil sent);
  retried = refl;
  for_tasks = ended;
}
retry_selected-Requeued sent total (t ∷ ts) w h s = requeue_all-Requeued sent total (t ∷ ts) h w s

length-select :
    (p : TaskExecution → Bool) (ts : List TaskExecution) → length (select p ts) ≡ count p ts
length-select p [] = refl
length-select p (t ∷ ts) = ground (arith, length-select p ts)

-- What an answer of `retry_batch_tasks` says of the batch's tasks.
abbrev pub RetryAnswer : List TaskExecution → List TaskMessage → Option BatchCount → World → Type 0
RetryAnswer children sent none w = Unit
RetryAnswer children sent (some c) w = RetryCounts children sent c w

retry_batch_found-RetryAnswer :
    (sent : List TaskMessage) (ts : List TaskExecution) (w : World)
    → HasSent sent w
    → Post (retry_batch_found ts w) (RetryAnswer ts sent) Anything
unfolding retry_batch_found
retry_batch_found-RetryAnswer sent [] w s = tt
retry_batch_found-RetryAnswer sent (t ∷ ts) w s =
    let all = t ∷ ts in
    Post-bind (Requeued (length all) (select may_retry all) sent) (RetryAnswer all sent) Anything
      (retry_selected (length all) (select may_retry all)) _ w
      (retry_selected-Requeued sent (length all) (select may_retry all) w
        (subst (λ n. n ≤ length all) (sym (length-select may_retry all))
          (count≤length may_retry all))
        s)
      (λ c v k. record {
        same_total = k.same_total;
        all_counted = k.all_counted ∙ sym k.same_total;
        messages = k.messages;
        acknowledged = k.acknowledged;
        retried = k.retried;
        for_tasks =
            Part-select may_retry (λ u m. MessageOf (batch_info u) m) Retries message-Retries all
              k.messages
              (Part-map batch_info MessageOf (λ u m. MessageOf (batch_info u) m) (λ u m x. x)
                (select may_retry all) k.messages k.for_tasks);
      })

no_children :
    (Q : Option BatchCount → World → Type 0) (R : World → Type 0)
    → ((v : World) → Q none v)
    → (v : World) → Post (retry_batch_found [] v) Q R
unfolding retry_batch_found
no_children Q R q v = q v

-- Whatever the stores and the broker do, where a batch retry answers with counts: the total is the
-- number of the batch's tasks, and `retried` and `skipped` make it up. Kafka has acknowledged, after
-- what it had before, as many messages as were `retried`; they belong one by one, and in their order,
-- to tasks of the batch, each of which failed, timed out or was cancelled and had fewer retries than
-- its limit; each message names its task and counts one retry more than the task had.
pub retry_batch_tasks-RetryAnswer :
    (tracer_id : String) (w : World)
    → Post
        (retry_batch_tasks tracer_id w)
        (RetryAnswer (select (λ t. t.parent_task_id == tracer_id) w.session) w.sent)
        (λ _. Unit)
unfolding retry_batch_tasks
retry_batch_tasks-RetryAnswer tracer_id w =
    Post-bind Asked Answered Anything (query_tasks_by_parent_id tracer_id) retry_batch_found w
      (query_tasks_by_parent_id-Post tracer_id w Asked Anything (λ fs. (inl refl, refl))
        (λ fs. (inr refl, refl)))
      (λ ts v (a, s). found ts v s a)
  where
    children : List TaskExecution
    children = select (λ t. t.parent_task_id == tracer_id) w.session

    Asked : List TaskExecution → World → Type 0
    Asked ts v = ((ts ≡ []) ⊎ (ts ≡ children)) × HasSent w.sent v

    Answered : Option BatchCount → World → Type 0
    Answered = RetryAnswer children w.sent

    found :
        (ts : List TaskExecution) (v : World)
        → HasSent w.sent v
        → (ts ≡ []) ⊎ (ts ≡ children)
        → Post (retry_batch_found ts v) Answered Anything
    found ts v s (inl e) =
        subst (λ us. Post (retry_batch_found us v) Answered Anything) (sym e)
          (no_children Answered Anything (λ u. tt) v)
    found ts v s (inr e) =
        subst (λ us. Post (retry_batch_found us v) Answered Anything) (sym e)
          (retry_batch_found-RetryAnswer w.sent children v s)
