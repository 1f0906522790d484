-- ===== src/Events/Catalog.antt =====
-- shared/src/events/event-catalog.ts, and the topic lists of shared/src/kafka/topic-config.ts that
-- are computed from it.
pub mod Laws
use eventflow_kafka_microser.Prelude.{
  String, Bool, Option, none, some, List, [], ◌∷◌, ◌++◌, map, filter, any, includes, ◌==◌,
  if◌then◌else◌,
}
use eventflow_kafka_microser.Events.Types.{
  EventType, order_created, order_cancelled, payment_requested, payment_processed, payment_failed,
  stock_reserved, stock_released, stock_failed, notification_send, notification_sent,
  notification_failed, event_name, same_event,
}
use eventflow_kafka_microser.Events.Topics.{
  order_events, payment_events, to_dlq_topic, all_kafka_topics,
}

pub data ServiceName : Type 0 where
  order_service payment_service stock_service notification_service dlq_service : ServiceName

unfoldable pub service_name : ServiceName → String
service_name order_service = "order-service"
service_name payment_service = "payment-service"
service_name stock_service = "stock-service"
service_name notification_service = "notification-service"
service_name dlq_service = "dlq-service"

unfoldable pub same_service : ServiceName → ServiceName → Bool
unfolding service_name
same_service a b = service_name a == service_name b

pub record EventCatalogEntry : Type 0 where
  pub event_type : EventType
  pub topic : String
  pub dlq_topic : String
  pub producer : ServiceName
  pub consumers : List ServiceName
  pub partition_key : String

unfoldable entry : EventType → String → ServiceName → List ServiceName → EventCatalogEntry
unfolding to_dlq_topic
entry event_type topic producer consumers = record {
  event_type = event_type;
  topic = topic;
  dlq_topic = to_dlq_topic topic;
  producer = producer;
  consumers = consumers;
  partition_key = "orderId";
}

unfoldable pub event_catalog : List EventCatalogEntry
unfolding entry event_name
event_catalog =
    entry order_created order_events order_service (payment_service ∷ [])
    ∷ entry order_cancelled (event_name order_cancelled) order_service
        (payment_service ∷ stock_service ∷ notification_service ∷ [])
    ∷ entry payment_requested (event_name payment_requested) payment_service (payment_service ∷ [])
    ∷ entry payment_processed payment_events payment_service (stock_service ∷ [])
    ∷ entry payment_failed payment_events payment_service
        (order_service ∷ notification_service ∷ [])
    ∷ entry stock_reserved (event_name stock_reserved) stock_service (notification_service ∷ [])
    ∷ entry stock_released (event_name stock_released) stock_service (order_service ∷ [])
    ∷ entry stock_failed (event_name stock_failed) stock_service
        (order_service ∷ notification_service ∷ [])
    ∷ entry notification_send (event_name notification_send) notification_service
        (notification_service ∷ [])
    ∷ entry notification_sent (event_name notification_sent) notification_service
        (order_service ∷ [])
    ∷ entry notification_failed (event_name notification_failed) notification_service
        (dlq_service ∷ [])
    ∷ []

unfoldable pub get_events_by_producer : ServiceName → List EventCatalogEntry
unfolding event_catalog same_service
get_events_by_producer s = filter (λ e. same_service e.producer s) event_catalog

unfoldable pub get_events_by_consumer : ServiceName → List EventCatalogEntry
unfolding event_catalog same_service
get_events_by_consumer s = filter (λ e. any (λ c. same_service c s) e.consumers) event_catalog

-- `entries.find(entry => entry.eventType === eventType)`
unfoldable pub find_entry : EventType → List EventCatalogEntry → Option EventCatalogEntry
unfolding same_event
find_entry t [] = none
find_entry t (e ∷ es) = if same_event e.event_type t then some e else find_entry t es

unfoldable pub get_catalog_entry : EventType → Option EventCatalogEntry
unfolding event_catalog find_entry
get_catalog_entry t = find_entry t event_catalog

-- `[...new Set(xs)]`, which keeps the first of equal texts; `seen` holds those before.
unfoldable pub distinct : List String → List String → List String
distinct seen [] = []
distinct seen (x ∷ xs) =
    let skip = distinct seen xs in
    let keep = distinct (x ∷ seen) xs in if includes seen x then skip else x ∷ keep

unfoldable pub base_kafka_topics : List String
unfolding all_kafka_topics event_catalog distinct
base_kafka_topics = distinct [] (all_kafka_topics ++ map (λ e. e.topic) event_catalog)

unfoldable pub with_dlq : List String → List String
unfolding to_dlq_topic
with_dlq [] = []
with_dlq (t ∷ ts) = t ∷ to_dlq_topic t ∷ with_dlq ts

unfoldable pub all_kafka_topics_with_dlq : List String
unfolding base_kafka_topics with_dlq
all_kafka_topics_with_dlq = with_dlq base_kafka_topics
