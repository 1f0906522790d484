-- ===== src/Kafka/Publisher/Laws.antt =====
-- What the rest of the code relies on in a KafkaEventTransport, and the two publishers.
use eventflow_kafka_microser.Prelude.{
  ◌≡◌, refl, ap, Option, none, some, ◌++◌, ◌∷◌, [], sym, subst, ℕ,
}
use eventflow_kafka_microser.Js.Io.{Io, World, lift, emit_kafka_event, accept, ◌>>=◌}
use eventflow_kafka_microser.Js.Host.{Host, Message}
use eventflow_kafka_microser.Js.Errors.{Result, ok, err, Thrown}
use eventflow_kafka_microser.Js.Value.{Value, Fields}
use eventflow_kafka_microser.Events.Types.{EventType}
use eventflow_kafka_microser.Kafka.Producer.Laws.{
  IsAcknowledged, publish_with_producer_retry-IsAcknowledged,
}
use eventflow_kafka_microser.Kafka.Publisher.{
  KafkaEventTransport, publish, publish_with_retry, event_message, publish_to_dlq,
  publish_to_dlq_with_retry, dlq_message, event_publisher, order_event_publisher,
}

-- The record was acknowledged, behind those before, and the store is as before.
abbrev pub Accepted : {Db : Type 0} → Message → World Db → World Db → Type 0
Accepted m w w' = (w'.sent ≡ w.sent ++ m ∷ []) × (w'.db ≡ w.db)

-- A publication that returns has had its one record acknowledged.
pub record Transports ⦃H : Host⦄ {Db : Type 0} (T : KafkaEventTransport Db) : Type 0 where
  pub publish-ok :
      (event_type : EventType) (envelope : Value) (headers : Fields) (w w' : World Db)
      → T.publish event_type envelope headers w ≡ (ok tt, w')
      → (m : Message) × (event_message event_type envelope headers ≡ ok m) × Accepted m w w'
  pub publish_to_dlq-ok :
      (event_type : EventType) (envelope : Value) (headers : Fields) (w w' : World Db)
      → T.publish_to_dlq event_type envelope headers w ≡ (ok tt, w')
      → Accepted (dlq_message event_type envelope headers) w w'

module _ ⦃H : Host⦄ {Db : Type 0} where
  accept-ok :
      (m : Message) (answer : Option Thrown) (k : ℕ) (w w' : World Db)
      → accept m answer k w ≡ (ok tt, w')
      → Accepted m w w'
  accept-ok m none k w w' h = (sym (ap (λ r. r.1.sent) h), sym (ap (λ r. r.1.db) h))
  accept-ok m (some e) k w w' h = cc

  emit_kafka_event-ok :
      (m : Message) (w w' : World Db) → emit_kafka_event m w ≡ (ok tt, w') → Accepted m w w'
  unfolding emit_kafka_event
  emit_kafka_event-ok m w w' h = accept-ok m (H.emit_error w.tick m) (H.appended w.tick m) _ w' h

  IsAcknowledged-ok :
      (m : Message) (w w' : World Db) (r : Result (Unit {0}) × World Db)
      → r ≡ (ok tt, w')
      → IsAcknowledged m w r
      → Accepted m w w'
  IsAcknowledged-ok m w w' r e h = subst (IsAcknowledged m w) e h

  lifted :
      (r : Result Message) (k : Message → Io Db (Unit {0})) (w w' : World Db)
      → ((m : Message) → k m w ≡ (ok tt, w') → Accepted m w w')
      → (lift r >>= k) w ≡ (ok tt, w')
      → (m : Message) × (r ≡ ok m) × Accepted m w w'
  unfolding ◌>>=◌
  lifted (ok m) k w w' f h = (m, refl, f m h)
  lifted (err e) k w w' f h = cc

  -- The publisher of payment-service, stock-service and notification-service: a publication that
  -- returns has had its record, and nothing else, acknowledged by the client.
  pub event_publisher-Transports : Transports (event_publisher {Db = Db})
  unfolding publish publish_to_dlq
  event_publisher-Transports = record {
    publish-ok = λ t v h w w' e.
        lifted (event_message t v h) _ w w' (λ m e'. emit_kafka_event-ok m w w' e') e;
    publish_to_dlq-ok = λ t v h w w' e. emit_kafka_event-ok _ w w' e;
  }

  -- The publisher of order-service, which tries again, keeps the interface that handlers rely on: a
  -- publication that returns has had its one record acknowledged by the client, once, and nothing
  -- else was acknowledged or stored.
  pub order_event_publisher-Transports : Transports (order_event_publisher {Db = Db})
  unfolding publish_with_retry publish_to_dlq_with_retry
  order_event_publisher-Transports = record {
    publish-ok = λ t v h w w' e.
        lifted (event_message t v h) _ w w'
          (λ m e'. IsAcknowledged-ok m w w' _ e' (publish_with_producer_retry-IsAcknowledged _ m w))
          e;
    publish_to_dlq-ok = λ t v h w w' e.
        IsAcknowledged-ok _ w w' _ e (publish_with_producer_retry-IsAcknowledged _ _ w);
  }
