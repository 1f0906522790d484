-- ===== src/Kafka/Publisher/Reliable.antt =====
-- A transport whose publications return.
use eventflow_kafka_microser.Prelude.{◌≡◌, none, ℕ}
use eventflow_kafka_microser.Js.Io.{World, ◌>>=◌, emit_kafka_event}
use eventflow_kafka_microser.Js.Io.Returns.{Returns}
use eventflow_kafka_microser.Js.Host.{Host, Message}
use eventflow_kafka_microser.Js.Errors.{ok}
use eventflow_kafka_microser.Js.Value.{Value, Fields}
use eventflow_kafka_microser.Events.Types.{EventType}
use eventflow_kafka_microser.Kafka.Publisher.{
  KafkaEventTransport, event_message, publish, publish_to_dlq, event_publisher,
}

-- An event that has a record is published, and so is every failure.
pub record Reliable ⦃H : Host⦄ {Db : Type 0} (T : KafkaEventTransport Db) : Type 0 where
  pub publish-Returns :
      (event_type : EventType) (envelope : Value) (headers : Fields) (m : Message) (w : World Db)
      → event_message event_type envelope headers ≡ ok m
      → Returns (T.publish event_type envelope headers w)
  pub publish_to_dlq-Returns :
      (event_type : EventType) (envelope : Value) (headers : Fields) (w : World Db)
      → Returns (T.publish_to_dlq event_type envelope headers w)

module _ ⦃H : Host⦄ {Db : Type 0}
    (accepting : (n : ℕ) (m : Message) → H.emit_error n m ≡ none) where
  emit_kafka_event-Returns : (m : Message) (w : World Db) → Returns (emit_kafka_event m w)
  unfolding emit_kafka_event
  emit_kafka_event-Returns m w = rw (accepting w.tick m) tt

  -- With a client that accepts every record, the publisher is reliable.
  pub event_publisher-Reliable : Reliable (event_publisher {Db = Db})
  unfolding ◌>>=◌ publish publish_to_dlq
  event_publisher-Reliable = record {
    publish-Returns = λ t v h m w e. rw e (emit_kafka_event-Returns m w);
    publish_to_dlq-Returns = λ t v h w. emit_kafka_event-Returns _ w;
  }
