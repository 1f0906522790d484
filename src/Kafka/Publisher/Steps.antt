-- ===== src/Kafka/Publisher/Steps.antt =====
-- The events of an order: what an envelope says of its order and of its cause, and the record that
-- carries it.
use eventflow_kafka_microser.Prelude.{◌≡◌, ◌∙◌, true}
use eventflow_kafka_microser.Js.Io.{World}
use eventflow_kafka_microser.Js.Host.{Host, Message, is_object}
use eventflow_kafka_microser.Js.Errors.{ok}
use eventflow_kafka_microser.Js.Value.{Value, get, str, end}
use eventflow_kafka_microser.Events.Types.{EventType, event_name}
use eventflow_kafka_microser.Events.Topics.{resolve_kafka_topic}
use eventflow_kafka_microser.Kafka.Publisher.{KafkaEventTransport}
use eventflow_kafka_microser.Kafka.Publisher.Laws.{Transports, Accepted}
use eventflow_kafka_microser.Kafka.Publisher.Keys.{event_message-keyed}
use eventflow_kafka_microser.Kafka.Consume.{extract_envelope}

-- An envelope of the given type for an order, caused by the given event, which a consumer extracts
-- as it is.
abbrev pub IsStep : ⦃H : Host⦄ → EventType → Value → Value → Value → Type 0
IsStep t order_id cause v =
    (get "eventType" v ≡ str (event_name t))
    × (get "correlationId" v ≡ order_id)
    × (get "causationId" v ≡ cause)
    × (get "orderId" (get "payload" v) ≡ order_id)
    × (is_object (get "payload" v) ≡ true)
    × (extract_envelope v ≡ ok v)

-- One record was accepted: a step of the order, on the topic of its type, keyed by the order.
abbrev pub Published :
    ⦃H : Host⦄ → {Db : Type 0} → EventType → Value → Value → Value → World Db → World Db → Type 0
Published t order_id cause v w w' =
    (m : Message) × (m.topic ≡ resolve_kafka_topic t)
    × (m.key ≡ order_id)
    × (m.value ≡ v)
    × IsStep t order_id cause v
    × Accepted m w w'

-- Such a step, whatever its envelope.
abbrev pub Publishes :
    ⦃H : Host⦄ → {Db : Type 0} → EventType → Value → Value → World Db → Unit {0} → World Db → Type 0
Publishes t order_id cause w a w' = (v : Value) × Published t order_id cause v w w'

module _ ⦃H : Host⦄ {Db : Type 0} (T : KafkaEventTransport Db) (L : Transports T) where
  -- A publication of a step that returns has published it.
  pub published :
      (t : EventType) (order_id cause v : Value) (w w' : World Db)
      → T.publish t v end w ≡ (ok tt, w')
      → IsStep t order_id cause v
      → Published t order_id cause v w w'
  published t o c v w w' h s =
      let (m, e, a) = L.publish-ok t v end w w' h in
      let (topic, value, key) = event_message-keyed t v end m e in
      (m, topic, key ∙ s.3, value, s, a)
