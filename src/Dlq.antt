-- ===== src/Dlq.antt =====
-- services/dlq-service/src/kafka/dlq-events.consumer.ts
pub mod Coverage
pub mod Recorded
use eventflow_kafka_microser.Js.Errors.{◌>>=◌, ◌>>◌, Result, ok, err, map_ok}
use eventflow_kafka_microser.Prelude.{String, List, Option, if◌then◌else◌, ◌∷◌, none, some}
use eventflow_kafka_microser.Js.Value.{Value, get}
use eventflow_kafka_microser.Js.Host.{Host, read}
use eventflow_kafka_microser.Kafka.Consume.{extract_envelope}
use eventflow_kafka_microser.Events.Types.{event_name, notification_failed}
use eventflow_kafka_microser.Events.Failure.{is_event_failure_payload}
use eventflow_kafka_microser.Events.Topics.{all_dlq_topics}

-- The acknowledgement: the topic, and the kind of the failure where there is one.
pub record Ack : Type 0 where
  pub topic : String
  pub failure : Option String

-- What the log line reads of a failure's payload; each read may throw.
abbrev read_failure : Value → Result (Unit {0})
read_failure failure = do
  _ ← read "attempt" (get "retry" failure)
  _ ← read "maxAttempts" (get "retry" failure)
  _ ← read "message" (get "error" failure)
  ok tt

module _ ⦃H : Host⦄ where
  abbrev classify : String → Value → Result Ack
  classify topic event =
      if is_event_failure_payload (get "payload" event)
      then map_ok (λ _. record { topic = topic; failure = some "event.failure" })
          (read_failure (get "payload" event))
      else ok (record { topic = topic; failure = none })

  -- `catch { … } return { acknowledged: true, topic }`
  abbrev acknowledge : String → Result Ack → Ack
  acknowledge topic (ok ack) = ack
  acknowledge topic (err e) = record { topic = topic; failure = none }

  unfoldable pub handle_dlq_message : String → Value → Ack
  handle_dlq_message topic payload = acknowledge topic (extract_envelope payload >>= classify topic)

  unfoldable pub handle_notification_failed : Value → Result (Unit {0})
  handle_notification_failed payload = do
    event ← extract_envelope payload
    _ ← read "notificationId" (get "payload" event)
    ok tt

-- The patterns that the service subscribes to: `notification.failed`, and each of the eleven entries
-- of `ALL_DLQ_TOPICS`.
unfoldable pub subscriptions : List String
subscriptions = event_name notification_failed ∷ all_dlq_topics
