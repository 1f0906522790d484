-- ===== src/Kafka/Producer.antt =====
-- `publishWithProducerRetry` of shared/src/kafka/producer-retry-policy.ts.
pub mod Exhausted
pub mod Laws
use eventflow_kafka_microser.Js.Io.{◌>>◌, Io, throw, attempt, sleep}
use eventflow_kafka_microser.Js.Host.{Host, int}
use eventflow_kafka_microser.Kafka.Retry.{RetryPolicyConfig, calculate_backoff_ms}
use eventflow_kafka_microser.Prelude.{ℕ, suc, if◌then◌else◌, zero}
use eventflow_kafka_microser.Js.Errors.{Thrown, other}
use eventflow_kafka_microser.Js.Value.{undefined}

module _ ⦃H : Host⦄ {Db : Type 0} (config : RetryPolicyConfig) (publish : Io Db (Unit {0})) where
  -- The loop, with fuel; `last` is the last error.
  unfoldable pub publish_from : ℕ → ℕ → Thrown → Io Db (Unit {0})
  publish_from zero k last = throw last
  publish_from (suc fuel) k last =
      let rest = λ (e : Thrown). publish_from fuel (suc k) e in
      if H.le (int k) config.max_attempts
      then attempt publish (λ e.
        if H.le config.max_attempts (int k)
        then throw e
        else do sleep (calculate_backoff_ms (int k) config); rest e)
      else throw last

  -- `lastError` is `undefined` before the first failure.
  unfoldable pub publish_with_producer_retry : Io Db (Unit {0})
  publish_with_producer_retry = publish_from (suc (H.floor config.max_attempts)) 1 (other undefined)
