-- ===== src/Kafka/Retry/Executor/Total.antt =====
-- Whatever a handler throws, its execution returns.
use eventflow_kafka_microser.Prelude.{◌≡◌, refl, String, Option, none, some}
use eventflow_kafka_microser.Js.Io.{Io, World, ◌>>=◌, draw, sleep}
use eventflow_kafka_microser.Js.Io.Returns.{Returns, >>=-Returns, attempt-Returns, if-Returns}
use eventflow_kafka_microser.Js.Host.{Host, truthy_num, Message}
use eventflow_kafka_microser.Js.Errors.{ok, Thrown}
use eventflow_kafka_microser.Js.Value.{Value, Fields, Num, end, str, spread}
use eventflow_kafka_microser.Events.Types.{EventType}
use eventflow_kafka_microser.Kafka.Publisher.Reliable.{Reliable}
use eventflow_kafka_microser.Kafka.Publisher.{KafkaEventTransport, event_message}
use eventflow_kafka_microser.Events.Catalog.{ServiceName}
use eventflow_kafka_microser.Kafka.Retry.{RetryPolicyConfig, should_send_to_dlq, should_retry}
use eventflow_kafka_microser.Kafka.Retry.Executor.{
  send_to_dlq, schedule_retry, wait_until, on_failure, execute,
}
use eventflow_kafka_microser.Events.Failure.{create_failure_envelope, normalize_error}
use eventflow_kafka_microser.Kafka.Wire.{
  resolve_partition_key, get_retry_at, envelope_to_kafka_headers,
}
use eventflow_kafka_microser.Events.Envelope.{create_event_envelope}
use eventflow_kafka_microser.Events.Topics.{resolve_kafka_topic}

module _ ⦃H : Host⦄ where
  -- An envelope that has a partition key has a record.
  pub event_message-exists :
      (t : EventType) (v : Value) (h : Fields) (key : String)
      → resolve_partition_key v ≡ ok key
      → (m : Message) × (event_message t v h ≡ ok m)
  unfolding event_message
  event_message-exists t v h key e = (
    record {
      topic = resolve_kafka_topic t;
      key = str key;
      value = v;
      headers = spread (envelope_to_kafka_headers v) h;
    },
    rw e refl,
  )

module _ ⦃H : Host⦄ {Db : Type 0} (T : KafkaEventTransport Db) (L : Reliable T)
    (service : ServiceName) (policy : RetryPolicyConfig) (event_type : EventType) (envelope : Value)
    (headers : Fields) where
  send_to_dlq-Returns :
      (e : Thrown) (n : Num) (w : World Db)
      → Returns (send_to_dlq T service policy event_type envelope headers e n w)
  unfolding ◌>>=◌ send_to_dlq create_failure_envelope normalize_error create_event_envelope draw
  send_to_dlq-Returns e n w = L.publish_to_dlq-Returns event_type _ end _

  schedule_retry-Returns :
      (key : String) (n : Num) (w : World Db)
      → resolve_partition_key envelope ≡ ok key
      → Returns (schedule_retry T service policy event_type envelope headers n w)
  unfolding ◌>>=◌ schedule_retry draw sleep
  schedule_retry-Returns key n w e =
      let (m, q) = event_message-exists event_type envelope _ key e in
      L.publish-Returns event_type envelope _ m _ q

  pub wait_until-Returns :
      (at : Option Num) (w : World Db)
      → Returns (wait_until T service policy event_type envelope headers at w)
  unfolding ◌>>=◌ draw sleep
  wait_until-Returns none w = tt
  wait_until-Returns (some t) w =
      if-Returns (truthy_num t) _ _ w (if-Returns (H.lt (H.now w.tick) t) _ _ _ tt tt) tt

  on_failure-Returns :
      (key : String) (e : Thrown) (w : World Db)
      → resolve_partition_key envelope ≡ ok key
      → Returns (on_failure T service policy event_type envelope headers e w)
  unfolding on_failure
  on_failure-Returns key e w k =
      let dead =
        >>=-Returns (send_to_dlq T service policy event_type envelope headers e _) _ w
          (send_to_dlq-Returns e _ w) (λ a v. tt) in
      if-Returns (should_send_to_dlq _ policy) _ _ w dead (
        if-Returns (should_retry _ policy) _ _ w
          (>>=-Returns (schedule_retry T service policy event_type envelope headers _) _ w
            (schedule_retry-Returns key _ w k) (λ a v. tt))
          dead)

  -- With a transport that publishes, and an envelope that has a partition key, `execute` returns
  -- whatever the handler does, whatever the headers and the policy: no error of a handler escapes.
  pub execute-Returns :
      (handler : Io Db (Unit {0})) (key : String) (w : World Db)
      → resolve_partition_key envelope ≡ ok key
      → Returns (execute T service policy event_type envelope headers handler w)
  unfolding execute
  execute-Returns handler key w k =
      >>=-Returns (wait_until T service policy event_type envelope headers (get_retry_at headers)) _
        w (wait_until-Returns _ w)
        (λ a v. attempt-Returns _ _ v (λ e u. on_failure-Returns key e u k))
