-- ===== src/Kafka/Retry/Executor.antt =====
-- shared/src/kafka/retry/kafka-retry.executor.ts
pub mod Concludes
pub mod Deliveries
pub mod Forwards
pub mod Succeeds
pub mod Total
use eventflow_kafka_microser.Js.Io.{◌>>=◌, ◌>>◌, Io, pure, draw, attempt, sleep}
use eventflow_kafka_microser.Js.Host.{Host, int, truthy_num}
use eventflow_kafka_microser.Kafka.Publisher.{KafkaEventTransport}
use eventflow_kafka_microser.Events.Catalog.{ServiceName}
use eventflow_kafka_microser.Kafka.Retry.{
  RetryPolicyConfig, calculate_backoff_ms, should_send_to_dlq, should_retry,
}
use eventflow_kafka_microser.Events.Types.{EventType}
use eventflow_kafka_microser.Js.Value.{Value, Fields, Num, end}
use eventflow_kafka_microser.Prelude.{Option, some, if◌then◌else◌, none}
use eventflow_kafka_microser.Js.Errors.{Thrown}
use eventflow_kafka_microser.Events.Failure.{create_failure_envelope}
use eventflow_kafka_microser.Kafka.Wire.{
  get_retry_count, get_retry_at, build_retry_headers, envelope_to_kafka_headers,
}
use eventflow_kafka_microser.Events.Topics.{resolve_kafka_topic}

pub data RetryOutcome : Type 0 where
  success retry dlq : RetryOutcome

module _ ⦃H : Host⦄ {Db : Type 0} (transport : KafkaEventTransport Db) (service : ServiceName)
    (policy : RetryPolicyConfig) (event_type : EventType) (envelope : Value)
    (headers : Fields) where
  -- `scheduleRetry`
  unfoldable pub schedule_retry : Num → Io Db (Unit {0})
  schedule_retry next_attempt = do
    let backoff_ms = calculate_backoff_ms next_attempt policy
    now ← draw H.now
    let retry_at = H.add now backoff_ms
    sleep backoff_ms
    transport.publish event_type envelope (
        build_retry_headers next_attempt policy.max_attempts retry_at
          (resolve_kafka_topic event_type) (envelope_to_kafka_headers envelope))

  -- `sendToDlq`
  unfoldable pub send_to_dlq : Thrown → Num → Io Db (Unit {0})
  send_to_dlq e attempt = do
    failure ← create_failure_envelope (record {
      original = envelope;
      original_topic = resolve_kafka_topic event_type;
      service = service;
      error = e;
      attempt = attempt;
      max_attempts = policy.max_attempts;
    })
    transport.publish_to_dlq event_type failure end

  -- the `catch` block of `execute`
  unfoldable pub on_failure : Thrown → Io Db RetryOutcome
  on_failure e =
      let next_attempt = H.add (get_retry_count headers) (int 1) in
      if should_send_to_dlq next_attempt policy
      then (do send_to_dlq e next_attempt; pure dlq)
      else if should_retry next_attempt policy
      then (do schedule_retry next_attempt; pure retry)
      else do send_to_dlq e next_attempt; pure dlq

  -- `if (retryAt && Date.now() < retryAt) await sleep(retryAt - Date.now())`
  abbrev pub wait_until : Option Num → Io Db (Unit {0})
  wait_until none = pure tt
  wait_until (some retry_at) =
      if truthy_num retry_at
      then (do
        now ← draw H.now
        if H.lt now retry_at
            then (do later ← draw H.now; sleep (H.sub retry_at later))
            else pure tt)
      else pure tt

  unfoldable pub execute : Io Db (Unit {0}) → Io Db RetryOutcome
  execute handler = do
    wait_until (get_retry_at headers)
    attempt (do handler; pure success) on_failure
