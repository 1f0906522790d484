-- ===== src/Saga/Subscriptions.antt =====
-- The topics that each service's consumer subscribes to, `@EventPattern` of
-- services/*/src/kafka/*-events.consumer.ts, against the catalog; and the catalog's routes,
-- services/*/src/events/events.controller.ts and app.service.ts.
use eventflow_kafka_microser.Prelude.{
  ◌≡◌, refl, String, Bool, true, false, not, ◌&&◌, List, [], ◌∷◌, any, ◌==◌,
}
use eventflow_kafka_microser.Events.Types.{
  EventType, order_cancelled, payment_requested, stock_reserved, stock_released, stock_failed,
  notification_send, notification_sent, event_name, order_created,
}
use eventflow_kafka_microser.Events.Topics.{
  order_events, payment_events, resolve_kafka_topic, all_dlq_topics,
}
use eventflow_kafka_microser.Events.Catalog.{
  ServiceName, order_service, payment_service, stock_service, notification_service, dlq_service,
  service_name, EventCatalogEntry, get_events_by_producer, get_events_by_consumer, event_catalog,
}
use eventflow_kafka_microser.Dlq.{subscriptions}

unfoldable pub order_subscriptions : List String
unfolding event_name
order_subscriptions =
    payment_events
    ∷ event_name stock_released
    ∷ event_name stock_failed
    ∷ event_name notification_sent
    ∷ []

unfoldable pub payment_subscriptions : List String
unfolding event_name
payment_subscriptions = order_events ∷ event_name order_cancelled ∷ []

unfoldable pub stock_subscriptions : List String
unfolding event_name
stock_subscriptions = payment_events ∷ event_name order_cancelled ∷ []

unfoldable pub notification_subscriptions : List String
unfolding event_name
notification_subscriptions =
    event_name stock_reserved ∷ payment_events ∷ event_name order_cancelled ∷ []

abbrev subscriptions_of : ServiceName → List String
subscriptions_of order_service = order_subscriptions
subscriptions_of payment_service = payment_subscriptions
subscriptions_of stock_service = stock_subscriptions
subscriptions_of notification_service = notification_subscriptions
subscriptions_of dlq_service = subscriptions

-- What `GET /events/catalog` answers.
pub record CatalogView : Type 0 where
  pub service : String
  pub produces : List EventCatalogEntry
  pub consumes : List EventCatalogEntry

pub record SystemCatalogView : Type 0 where
  pub view : CatalogView
  pub dlq_topics : List String
  pub system_catalog : List EventCatalogEntry

unfoldable pub get_catalog : ServiceName → CatalogView
get_catalog service = record {
  service = service_name service;
  produces = get_events_by_producer service;
  consumes = get_events_by_consumer service;
}

-- That of the dlq-service
unfoldable pub get_system_catalog : SystemCatalogView
get_system_catalog = record {
  view = get_catalog dlq_service;
  dlq_topics = all_dlq_topics;
  system_catalog = event_catalog;
}

-- A consumer of a type has a pattern for the topic on which it is published.
unfoldable pub is_heard : ServiceName → EventType → Bool
unfolding order_subscriptions payment_subscriptions stock_subscriptions notification_subscriptions
    subscriptions resolve_kafka_topic
is_heard service t = any (λ topic. topic == resolve_kafka_topic t) (subscriptions_of service)

-- The catalog that a service shows lists the type among what it consumes.
unfoldable pub is_listed : ServiceName → EventType → Bool
unfolding get_catalog
is_listed service t =
    any (λ (e : EventCatalogEntry). event_name e.event_type == event_name t)
      ((get_catalog service).consumes)

-- The types that the catalog lists for a service without a pattern.
abbrev pub is_unheard : ServiceName → EventType → Bool
is_unheard payment_service payment_requested = true
is_unheard notification_service stock_failed = true
is_unheard notification_service notification_send = true
is_unheard service t = false

-- The catalog lists a type for a service whose consumer has no pattern for the type's topic exactly
-- for `payment.requested` at payment-service, and for `stock.failed` and `notification.send` at
-- notification-service: these are published to topics that the service never reads, and every other
-- type that a service's catalog lists is heard.
pub is_heard-is_listed :
    (service : ServiceName) (t : EventType)
    → (is_listed service t && not (is_heard service t)) ≡ is_unheard service t
unfolding is_heard is_listed event_name get_events_by_consumer
is_heard-is_listed order_service order_created = refl
is_heard-is_listed order_service t = refl
is_heard-is_listed payment_service order_created = refl
is_heard-is_listed payment_service t = refl
is_heard-is_listed stock_service order_created = refl
is_heard-is_listed stock_service t = refl
is_heard-is_listed notification_service order_created = refl
is_heard-is_listed notification_service t = refl
is_heard-is_listed dlq_service order_created = refl
is_heard-is_listed dlq_service t = refl
