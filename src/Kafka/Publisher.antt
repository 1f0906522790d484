-- ===== src/Kafka/Publisher.antt =====
-- The `EventPublisher` of each service: services/*/src/kafka/event-publisher.service.ts, and the
-- interface KafkaEventTransport of shared/src/kafka/kafka-event-transport.ts that it implements.
pub mod Keys
pub mod Laws
pub mod Reliable
pub mod Steps
use eventflow_kafka_microser.Js.Io.{◌>>=◌, Io, lift, emit_kafka_event}
use eventflow_kafka_microser.Events.Types.{EventType}
use eventflow_kafka_microser.Js.Host.{Host, Message}
use eventflow_kafka_microser.Js.Value.{Value, Fields, get, spread, str}
use eventflow_kafka_microser.Js.Errors.{Result, map_ok}
use eventflow_kafka_microser.Events.Topics.{to_dlq_topic, resolve_kafka_topic}
use eventflow_kafka_microser.Kafka.Producer.{publish_with_producer_retry}
use eventflow_kafka_microser.Kafka.Retry.{resolve_producer_retry_policy, no_overrides}
use eventflow_kafka_microser.Kafka.Wire.{envelope_to_kafka_headers, resolve_partition_key}

-- `headers` are those of `PublishOptions`, empty where there are none.
pub record KafkaEventTransport (Db : Type 0) : Type 0 where
  pub publish : EventType → Value → Fields → Io Db (Unit {0})
  pub publish_to_dlq : EventType → Value → Fields → Io Db (Unit {0})

module _ ⦃H : Host⦄ where
  -- The record that `publish` hands to the client, if the payload has a partition key.
  unfoldable pub event_message : EventType → Value → Fields → Result Message
  event_message event_type envelope headers =
      map_ok
        (λ key. record {
          topic = resolve_kafka_topic event_type;
          key = str key;
          value = envelope;
          headers = spread (envelope_to_kafka_headers envelope) headers;
        })
        (resolve_partition_key envelope)

  unfoldable pub dlq_message : EventType → Value → Fields → Message
  dlq_message event_type envelope headers = record {
    topic = to_dlq_topic (resolve_kafka_topic event_type);
    key = get "correlationId" (get "payload" envelope);
    value = envelope;
    headers = spread (envelope_to_kafka_headers envelope) headers;
  }

  module _ {Db : Type 0} where
    unfoldable pub publish : EventType → Value → Fields → Io Db (Unit {0})
    publish event_type envelope headers = do
      message ← lift (event_message event_type envelope headers)
      emit_kafka_event message

    unfoldable pub publish_to_dlq : EventType → Value → Fields → Io Db (Unit {0})
    publish_to_dlq event_type envelope headers =
        emit_kafka_event (dlq_message event_type envelope headers)

    -- payment-service, stock-service and notification-service
    abbrev pub event_publisher : KafkaEventTransport Db
    event_publisher = record { publish = publish; publish_to_dlq = publish_to_dlq }

    -- order-service, which retries on its own
    unfoldable pub publish_with_retry : EventType → Value → Fields → Io Db (Unit {0})
    publish_with_retry event_type envelope headers = do
      message ← lift (event_message event_type envelope headers)
      publish_with_producer_retry (resolve_producer_retry_policy no_overrides)
          (emit_kafka_event message)

    unfoldable pub publish_to_dlq_with_retry : EventType → Value → Fields → Io Db (Unit {0})
    publish_to_dlq_with_retry event_type envelope headers =
        publish_with_producer_retry (resolve_producer_retry_policy no_overrides)
          (emit_kafka_event (dlq_message event_type envelope headers))

    abbrev pub order_event_publisher : KafkaEventTransport Db
    order_event_publisher = record {
      publish = publish_with_retry;
      publish_to_dlq = publish_to_dlq_with_retry;
    }
