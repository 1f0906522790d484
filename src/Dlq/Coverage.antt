-- ===== src/Dlq/Coverage.antt =====
-- Which dead-letter topics services/dlq-service reads: those that the publishers of the services
-- write to, against its patterns.
use eventflow_kafka_microser.Prelude.{String, ◌≡◌, Bool, true, false, not, any, ◌==◌, refl}
use eventflow_kafka_microser.Js.Value.{Value, Fields}
use eventflow_kafka_microser.Js.Host.{Host}
use eventflow_kafka_microser.Events.Types.{
  EventType, order_created, payment_processed, payment_failed,
}
use eventflow_kafka_microser.Events.Topics.{resolve_kafka_topic, to_dlq_topic, all_dlq_topics}
use eventflow_kafka_microser.Kafka.Publisher.{dlq_message}
use eventflow_kafka_microser.Dlq.{subscriptions}

-- The service has a pattern for the topic.
unfoldable pub is_subscribed : String → Bool
unfolding any subscriptions
is_subscribed topic = any (λ t. t == topic) subscriptions

-- The event types that share a topic with others, in place of a topic of their own.
abbrev pub is_grouped : EventType → Bool
is_grouped order_created = true
is_grouped payment_processed = true
is_grouped payment_failed = true
is_grouped _ = false

module _ ⦃H : Host⦄ where
  -- A failure that a publisher sends to the dead-letter topic of an event type is read by the
  -- dlq-service exactly where the type is not `order.created`, `payment.processed` or
  -- `payment.failed`: the dead letters of these three go to topics that have no pattern.
  pub is_subscribed-dlq_message :
      (e : EventType) (failure : Value) (headers : Fields)
      → is_subscribed ((dlq_message e failure headers).topic) ≡ not (is_grouped e)
  unfolding is_subscribed dlq_message to_dlq_topic resolve_kafka_topic all_dlq_topics
  is_subscribed-dlq_message order_created f h = refl
  is_subscribed-dlq_message payment_processed f h = refl
  is_subscribed-dlq_message payment_failed f h = refl
  is_subscribed-dlq_message e f h = refl
