-- ===== src/Events/Payloads.antt =====
-- shared/src/events/payloads: the interfaces of the payloads, by the types of their fields, and
-- `EventPayloadMap` of event-map.ts.
pub mod Asserted
use eventflow_kafka_microser.Prelude.{String, Bool, true, false, List, [], ◌∷◌, ◌&&◌, includes, all}
use eventflow_kafka_microser.Js.Value.{Value, get, str, num, arr, items_list}
use eventflow_kafka_microser.Js.Host.{is_object}
use eventflow_kafka_microser.Events.Types.{
  EventType, order_created, order_cancelled, payment_requested, payment_processed, payment_failed,
  stock_reserved, stock_released, stock_failed, notification_send, notification_sent,
  notification_failed,
}

-- The types that the fields of the payloads have.
pub data FieldType : Type 0 where
  text number currency_code channel canceller order_items : FieldType

-- An interface, by its fields in order. An object may have more fields.
abbrev pub Interface : Type 0
Interface = List (String × FieldType)

-- payloads/common.ts
abbrev pub currency_codes : List String
currency_codes = "BRL" ∷ "USD" ∷ "EUR" ∷ []

-- payloads/notification.events.ts
abbrev pub notification_channels : List String
notification_channels = "email" ∷ "sms" ∷ "push" ∷ []

-- The literals of `cancelledBy` in payloads/order.events.ts
abbrev pub cancellers : List String
cancellers = "customer" ∷ "system" ∷ "admin" ∷ []

-- One of the literals of a type
abbrev is_one_of : List String → Value → Bool
is_one_of literals (str s) = includes literals s
is_one_of literals v = false

abbrev is_string : Value → Bool
is_string (str s) = true
is_string v = false

abbrev is_number : Value → Bool
is_number (num x) = true
is_number v = false

-- `OrderItem`
unfoldable pub is_order_item : Value → Bool
is_order_item v =
    is_object v
    && is_string (get "productId" v)
    && is_number (get "quantity" v)
    && is_number (get "unitPrice" v)

unfoldable pub has_type : FieldType → Value → Bool
has_type text v = is_string v
has_type number v = is_number v
has_type currency_code v = is_one_of currency_codes v
has_type channel v = is_one_of notification_channels v
has_type canceller v = is_one_of cancellers v
has_type order_items (arr xs) = all is_order_item (items_list xs)
has_type order_items v = false

unfoldable pub has_fields : Interface → Value → Bool
has_fields [] v = true
has_fields ((k, t) ∷ fields) v = has_type t (get k v) && has_fields fields v

-- A value is an object of the interface.
abbrev pub conforms : Interface → Value → Bool
conforms fields v = is_object v && has_fields fields v

abbrev pub order_created_payload_fields : Interface
order_created_payload_fields =
    ("orderId", text)
    ∷ ("customerId", text)
    ∷ ("items", order_items)
    ∷ ("totalAmount", number)
    ∷ ("currency", currency_code)
    ∷ []

abbrev pub order_cancelled_payload_fields : Interface
order_cancelled_payload_fields =
    ("orderId", text) ∷ ("reason", text) ∷ ("cancelledBy", canceller) ∷ []

abbrev pub payment_requested_payload_fields : Interface
payment_requested_payload_fields =
    ("paymentId", text) ∷ ("orderId", text) ∷ ("amount", number) ∷ ("currency", currency_code) ∷ []

abbrev pub payment_processed_payload_fields : Interface
payment_processed_payload_fields =
    ("paymentId", text) ∷ ("orderId", text) ∷ ("transactionId", text) ∷ ("processedAt", text) ∷ []

abbrev pub payment_failed_payload_fields : Interface
payment_failed_payload_fields =
    ("paymentId", text) ∷ ("orderId", text) ∷ ("reason", text) ∷ ("failedAt", text) ∷ []

abbrev pub stock_reserved_payload_fields : Interface
stock_reserved_payload_fields =
    ("reservationId", text) ∷ ("orderId", text) ∷ ("items", order_items) ∷ ("reservedAt", text) ∷ []

abbrev pub stock_released_payload_fields : Interface
stock_released_payload_fields =
    ("reservationId", text) ∷ ("orderId", text) ∷ ("reason", text) ∷ ("releasedAt", text) ∷ []

abbrev pub stock_failed_payload_fields : Interface
stock_failed_payload_fields = ("orderId", text) ∷ ("reason", text) ∷ ("failedAt", text) ∷ []

abbrev pub notification_send_payload_fields : Interface
notification_send_payload_fields =
    ("notificationId", text)
    ∷ ("orderId", text)
    ∷ ("channel", channel)
    ∷ ("recipient", text)
    ∷ ("template", text)
    ∷ []

abbrev pub notification_sent_payload_fields : Interface
notification_sent_payload_fields =
    ("notificationId", text) ∷ ("orderId", text) ∷ ("channel", channel) ∷ ("sentAt", text) ∷ []

abbrev pub notification_failed_payload_fields : Interface
notification_failed_payload_fields =
    ("notificationId", text)
    ∷ ("orderId", text)
    ∷ ("channel", channel)
    ∷ ("reason", text)
    ∷ ("failedAt", text)
    ∷ []

-- `EventPayloadMap`
unfoldable pub event_payload_map : EventType → Interface
event_payload_map order_created = order_created_payload_fields
event_payload_map order_cancelled = order_cancelled_payload_fields
event_payload_map payment_requested = payment_requested_payload_fields
event_payload_map payment_processed = payment_processed_payload_fields
event_payload_map payment_failed = payment_failed_payload_fields
event_payload_map stock_reserved = stock_reserved_payload_fields
event_payload_map stock_released = stock_released_payload_fields
event_payload_map stock_failed = stock_failed_payload_fields
event_payload_map notification_send = notification_send_payload_fields
event_payload_map notification_sent = notification_sent_payload_fields
event_payload_map notification_failed = notification_failed_payload_fields
