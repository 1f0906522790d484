-- ===== src/Events/Catalog/Laws.antt =====
-- The catalog against the registry of event types and the resolution of topics.
use eventflow_kafka_microser.Prelude.{◌≡◌, refl, some}
use eventflow_kafka_microser.Events.Types.{
  EventType, order_created, payment_processed, payment_failed, order_cancelled, payment_requested,
  stock_reserved, stock_released, stock_failed, notification_send, notification_sent,
  notification_failed,
}
use eventflow_kafka_microser.Events.Topics.{resolve_kafka_topic, to_dlq_topic}
use eventflow_kafka_microser.Events.Catalog.{EventCatalogEntry, get_catalog_entry}

-- The catalog has an entry for each event type, which is found under that type, and whose topic and
-- dead-letter topic are those that the publishers of the services resolve.
pub get_catalog_entry-resolve_kafka_topic :
    (t : EventType)
    → (e : EventCatalogEntry) × (get_catalog_entry t ≡ some e)
      × (e.event_type ≡ t)
      × (e.topic ≡ resolve_kafka_topic t)
      × (e.dlq_topic ≡ to_dlq_topic (resolve_kafka_topic t))
unfolding get_catalog_entry resolve_kafka_topic
get_catalog_entry-resolve_kafka_topic order_created = (_, refl, refl, refl, refl)
get_catalog_entry-resolve_kafka_topic payment_processed = (_, refl, refl, refl, refl)
get_catalog_entry-resolve_kafka_topic payment_failed = (_, refl, refl, refl, refl)
get_catalog_entry-resolve_kafka_topic order_cancelled = (_, refl, refl, refl, refl)
get_catalog_entry-resolve_kafka_topic payment_requested = (_, refl, refl, refl, refl)
get_catalog_entry-resolve_kafka_topic stock_reserved = (_, refl, refl, refl, refl)
get_catalog_entry-resolve_kafka_topic stock_released = (_, refl, refl, refl, refl)
get_catalog_entry-resolve_kafka_topic stock_failed = (_, refl, refl, refl, refl)
get_catalog_entry-resolve_kafka_topic notification_send = (_, refl, refl, refl, refl)
get_catalog_entry-resolve_kafka_topic notification_sent = (_, refl, refl, refl, refl)
get_catalog_entry-resolve_kafka_topic notification_failed = (_, refl, refl, refl, refl)
