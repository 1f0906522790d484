-- ===== src/Payment/Order.antt =====
-- shared/src/events/payloads/common.ts and order.events.ts: the typed view of an `order.created`
-- envelope, which the validators' `asserts` gives to the code behind them.
use eventflow_kafka_microser.Js.Value.{Value, Num, get, str, num, arr, double, items_list}
use eventflow_kafka_microser.Prelude.{String, List, map, []}

pub record OrderItem : Type 0 where
  pub product_id : String
  pub quantity : Num
  pub unit_price : Num

pub record OrderCreatedPayload : Type 0 where
  pub order_id : String
  pub customer_id : String
  pub items : List OrderItem
  pub total_amount : Num
  pub currency : String

-- `EventEnvelope<OrderCreatedPayload>`, as far as it is read, with the object itself.
pub record OrderCreated : Type 0 where
  pub event_id : String
  pub payload : OrderCreatedPayload
  pub envelope : Value

-- A field of a known type. The other cases are ruled out by the validators.
abbrev pub text_of : Value → String
text_of (str s) = s
text_of _ = ""

abbrev pub num_of : Value → Num
num_of (num x) = x
num_of _ = double 0

abbrev pub items_value : Value → List Value
items_value (arr xs) = items_list xs
items_value _ = []

unfoldable pub order_item : Value → OrderItem
order_item v = record {
  product_id = text_of (get "productId" v);
  quantity = num_of (get "quantity" v);
  unit_price = num_of (get "unitPrice" v);
}

unfoldable pub order_created_payload : Value → OrderCreatedPayload
order_created_payload v = record {
  order_id = text_of (get "orderId" v);
  customer_id = text_of (get "customerId" v);
  items = map order_item (items_value (get "items" v));
  total_amount = num_of (get "totalAmount" v);
  currency = text_of (get "currency" v);
}

unfoldable pub as_order_created : Value → OrderCreated
as_order_created v = record {
  event_id = text_of (get "eventId" v);
  payload = order_created_payload (get "payload" v);
  envelope = v;
}
