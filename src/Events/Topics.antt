-- ===== src/Events/Topics.antt =====
-- shared/src/events/domain-topics.ts, kafka-topics.ts and resolve-kafka-topic.ts: the topics that
-- carry the events, and their dead-letter companions.
use eventflow_kafka_microser.Prelude.{String, List, ◌∷◌, [], map, concat}
use eventflow_kafka_microser.Events.Types.{
  EventType, order_created, payment_processed, payment_failed, event_name, all_event_types,
}

abbrev pub order_events : String
order_events = "order.events"

abbrev pub payment_events : String
payment_events = "payment.events"

-- `EVENT_TO_KAFKA_TOPIC[eventType] ?? eventType`
unfoldable pub resolve_kafka_topic : EventType → String
unfolding event_name
resolve_kafka_topic order_created = order_events
resolve_kafka_topic payment_processed = payment_events
resolve_kafka_topic payment_failed = payment_events
resolve_kafka_topic e = event_name e

abbrev pub dlq_topic_suffix : String
dlq_topic_suffix = ".dlq"

unfoldable pub to_dlq_topic : String → String
unfolding concat
to_dlq_topic topic = concat (topic ∷ dlq_topic_suffix ∷ [])

-- `ALL_KAFKA_TOPICS`, which is `ALL_EVENT_TYPES`
unfoldable pub all_kafka_topics : List String
unfolding event_name
all_kafka_topics = map event_name all_event_types

unfoldable pub all_dlq_topics : List String
unfolding all_kafka_topics to_dlq_topic
all_dlq_topics = map to_dlq_topic all_kafka_topics
