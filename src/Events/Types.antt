-- ===== src/Events/Types.antt =====
-- shared/src/events/event-types.ts and core-events.ts: the registry of event types.
use eventflow_kafka_microser.Prelude.{String, Bool, List, [], ◌∷◌, ◌==◌, any}

pub data EventType : Type 0 where
  order_created order_cancelled : EventType
  payment_requested payment_processed payment_failed : EventType
  stock_reserved stock_released stock_failed : EventType
  notification_send notification_sent notification_failed : EventType

-- The `eventType` field of an envelope.
unfoldable pub event_name : EventType → String
event_name order_created = "order.created"
event_name order_cancelled = "order.cancelled"
event_name payment_requested = "payment.requested"
event_name payment_processed = "payment.processed"
event_name payment_failed = "payment.failed"
event_name stock_reserved = "stock.reserved"
event_name stock_released = "stock.released"
event_name stock_failed = "stock.failed"
event_name notification_send = "notification.send"
event_name notification_sent = "notification.sent"
event_name notification_failed = "notification.failed"

abbrev pub all_event_types : List EventType
all_event_types =
    order_created ∷ order_cancelled ∷ payment_requested ∷ payment_processed ∷ payment_failed
    ∷ stock_reserved ∷ stock_released ∷ stock_failed ∷ notification_send ∷ notification_sent
    ∷ notification_failed ∷ []

-- `a === b` on event types
unfoldable pub same_event : EventType → EventType → Bool
unfolding event_name
same_event a b = event_name a == event_name b

abbrev pub core_system_events : List EventType
core_system_events =
    order_created ∷ payment_processed ∷ payment_failed ∷ stock_reserved ∷ notification_sent ∷ []

abbrev pub core_event_flow : List EventType
core_event_flow = order_created ∷ payment_processed ∷ stock_reserved ∷ notification_sent ∷ []

abbrev pub core_failure_event : EventType
core_failure_event = payment_failed

unfoldable pub is_core_system_event : EventType → Bool
unfolding same_event
is_core_system_event e = any (λ f. same_event f e) core_system_events
