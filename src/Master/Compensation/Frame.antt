-- ===== src/Master/Compensation/Frame.antt =====
-- The first uses of the clients change no store.
use vanguard_runner.Model.{World}
use vanguard_runner.Model.Frame.{Preserves, Preserves-external}
use vanguard_runner.Redis.Hashes.{IgnoresRedis}
use vanguard_runner.Master.Compensation.{get_redis_client, get_kafka_producer}

module _ (P : World → Type 0) (ignores : IgnoresRedis P) where
  pub get_redis_client-Preserves : Preserves P get_redis_client
  unfolding get_redis_client
  get_redis_client-Preserves = Preserves-external P (λ w fs p. ignores w w.redis fs p)

  pub get_kafka_producer-Preserves : Preserves P get_kafka_producer
  unfolding get_kafka_producer
  get_kafka_producer-Preserves = Preserves-external P (λ w fs p. ignores w w.redis fs p)
