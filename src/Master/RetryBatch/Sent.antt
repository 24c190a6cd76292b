-- ===== src/Master/RetryBatch/Sent.antt =====
-- The steps of `retry_batch_tasks` other than the sending leave the acknowledged messages alone
-- (apps/master/application/services/workflow_service.py).
use vanguard_runner.Base.{ltb, String, Option, none, some, List, [], ◌∷◌, ◌≡◌}
use vanguard_runner.Model.{external, Message, TaskMessage, TaskExecution, World}
use vanguard_runner.Model.Frame.{
  Preserves, Preserves-pure, Preserves-gets, Preserves-if, Preserves-try_except, Preserves-bind,
  Preserves-for_each, Preserves-external,
}
use vanguard_runner.Database.{StatusUpdate, update_found, update_task_status, commit}
use vanguard_runner.Redis.Hashes.{update_task_field-Preserves, set_task_status-Preserves}
use vanguard_runner.Kafka.{SendResult}
use vanguard_runner.Master.Compensation.{
  get_redis_client, get_kafka_producer, mark_dispatch_failed, mark_tasks_dispatch_failed,
  mark_failed_in_redis, mark_failed_tasks_in_redis,
}
use vanguard_runner.Master.Compensation.Frame.{
  get_redis_client-Preserves, get_kafka_producer-Preserves,
}
use vanguard_runner.Master.Retry.{reset_task_for_retry_in_redis}
use vanguard_runner.Master.Retry.Safety.{reset_task_for_retry_in_redis-Preserves}
use vanguard_runner.Master.RetryBatch.{mark_undelivered, compensate_retry}

module _ (sent : List TaskMessage) where
  -- A world with these acknowledged messages.
  abbrev pub HasSent : World → Type 0
  HasSent w = w.sent ≡ sent

  external-HasSent : Preserves HasSent external
  external-HasSent = Preserves-external HasSent (λ w fs p. p)

  update_found-HasSent :
      (id : String) (u : StatusUpdate) (o : Option TaskExecution)
      → Preserves HasSent (update_found id u o)
  unfolding update_found
  update_found-HasSent id u none = Preserves-pure _
  update_found-HasSent id u (some t) = record { ends = λ w p. p }

  pub update_task_status-HasSent :
      (id : String) (u : StatusUpdate) → Preserves HasSent (update_task_status id u)
  unfolding update_task_status
  update_task_status-HasSent id u =
      Preserves-try_except _ _
        (Preserves-bind _ _ external-HasSent
          (λ _. Preserves-bind _ _ (Preserves-gets _) (update_found-HasSent id u)))
        (λ e. Preserves-pure _)

  pub commit-HasSent : Preserves HasSent commit
  unfolding commit
  commit-HasSent = Preserves-bind _ _ external-HasSent (λ _. record { ends = λ w p. p })

  pub get_redis_client-HasSent : Preserves HasSent get_redis_client
  get_redis_client-HasSent = get_redis_client-Preserves HasSent (λ w redis fs p. p)

  pub get_kafka_producer-HasSent : Preserves HasSent get_kafka_producer
  get_kafka_producer-HasSent = get_kafka_producer-Preserves HasSent (λ w redis fs p. p)

  pub reset_task_for_retry_in_redis-HasSent :
      (id : String) → Preserves HasSent (reset_task_for_retry_in_redis id)
  reset_task_for_retry_in_redis-HasSent =
      reset_task_for_retry_in_redis-Preserves HasSent (λ w redis fs p. p)

  mark_dispatch_failed-HasSent :
      (message : Message) (id : String) → Preserves HasSent (mark_dispatch_failed message id)
  unfolding mark_dispatch_failed
  mark_dispatch_failed-HasSent message id =
      Preserves-bind _ _ (update_task_status-HasSent id _) (λ _. Preserves-pure _)

  mark_failed_in_redis-HasSent :
      (message : Message) (id : String) → Preserves HasSent (mark_failed_in_redis message id)
  unfolding mark_failed_in_redis
  mark_failed_in_redis-HasSent message id =
      Preserves-bind _ _ (set_task_status-Preserves HasSent (λ w redis fs p. p) id _)
        (λ _. update_task_field-Preserves HasSent (λ w redis fs p. p) id _)

  mark_undelivered-HasSent :
      (ids : List String) (message : Message) → Preserves HasSent (mark_undelivered ids message)
  unfolding mark_undelivered mark_tasks_dispatch_failed mark_failed_tasks_in_redis
  mark_undelivered-HasSent [] message = Preserves-pure _
  mark_undelivered-HasSent (id ∷ ids) message =
      Preserves-bind _ _
        (Preserves-bind _ _ (Preserves-for_each (id ∷ ids) _ (mark_dispatch_failed-HasSent message))
          (λ _. commit-HasSent))
        (λ _. Preserves-for_each (id ∷ ids) _ (mark_failed_in_redis-HasSent message))

  pub compensate_retry-HasSent :
      (ts : List TaskExecution) (r : SendResult) → Preserves HasSent (compensate_retry ts r)
  unfolding compensate_retry
  compensate_retry-HasSent ts r =
      Preserves-if (ltb 0 r.failed) _ _ (mark_undelivered-HasSent _ _) (Preserves-pure _)
