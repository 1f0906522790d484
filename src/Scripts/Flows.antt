-- ===== src/Scripts/Flows.antt =====
-- scripts/verify-order-kafka-flow.mjs and scripts/verify-payment-full-flow.mjs
pub mod Passes
pub mod Services
use eventflow_kafka_microser.Js.Errors.{Result, ok, ◌>>=◌, ◌>>◌}
use eventflow_kafka_microser.Prelude.{
  Option, String, Bool, List, if◌then◌else◌, some, ◌||◌, none, concat, ◌∷◌, [],
}
use eventflow_kafka_microser.Js.Host.{Host, read, truthy}
use eventflow_kafka_microser.Js.Value.{Value, null, str, get, num}
use eventflow_kafka_microser.Orders.Service.{CreateOrderResponse}
use eventflow_kafka_microser.Scripts.{Delivery, strict_equal, wait_for_message, assert, Awaited}

abbrev id_value : Option String → Value
id_value none = null
id_value (some id) = str id

module _ ⦃H : Host⦄ where
  -- `envelope.eventType === 'order.created'`
  unfoldable pub is_order_created : Value → Result Bool
  is_order_created envelope = do
    t ← read "eventType" envelope
    ok (strict_equal t (str "order.created"))

  -- The filter of the wait on payment.events.
  unfoldable pub is_payment_outcome : Value → Result Bool
  is_payment_outcome envelope = do
    t ← read "eventType" envelope
    ok (strict_equal t (str "payment.processed") || strict_equal t (str "payment.failed"))

  -- `messagePromise` of verify-order-kafka-flow.mjs
  unfoldable pub order_message : List Delivery → Result Awaited
  order_message = wait_for_message "No message on order.events within 45000ms" is_order_created

  -- verify-order-kafka-flow.mjs, behind the answer of `POST /orders`
  unfoldable pub verify_order : CreateOrderResponse → List Delivery → Result (Unit {0})
  verify_order created deliveries = do
    received ← order_message deliveries
    let envelope = received.envelope
    assert (strict_equal received.key (str created.order_id))
        (concat ("Kafka key " ∷ H.show received.key ∷ " !== orderId " ∷ created.order_id ∷ []))
    assert (strict_equal (get "eventId" envelope) (id_value created.event_id)) (
        concat (
          "eventId mismatch: kafka="
          ∷ H.show (get "eventId" envelope)
          ∷ " api="
          ∷ H.show (id_value created.event_id)
          ∷ []))
    assert (strict_equal (get "correlationId" envelope) (str created.order_id))
        "correlationId must equal orderId"
    assert (strict_equal (get "source" envelope) (str "order-service"))
        "source must be order-service"
    order_id ← read "orderId" (get "payload" envelope)
    assert (strict_equal order_id (str created.order_id)) "payload.orderId mismatch"
    assert (strict_equal (get "totalAmount" (get "payload" envelope)) (num (H.lit 998 1)))
        "payload.totalAmount mismatch"

  -- The last assertion of the full flow, which is made for an approved payment.
  unfoldable pub verify_outcome : Value → Result (Unit {0})
  verify_outcome envelope =
      if strict_equal (get "eventType" envelope) (str "payment.processed")
      then assert (truthy (get "transactionId" (get "payload" envelope))) "missing transactionId"
      else ok tt

  -- verify-payment-full-flow.mjs, behind the answer of `POST /orders`, by the records of both topics
  unfoldable pub verify_full_flow :
      CreateOrderResponse → List Delivery → List Delivery → Result (Unit {0})
  verify_full_flow order orders payments = do
    order_msg ← wait_for_message "Timeout waiting for order.events" is_order_created orders
    assert (strict_equal (get "eventId" order_msg.envelope) (id_value order.event_id))
        "order.events eventId mismatch"
    assert (strict_equal order_msg.key (str order.order_id)) "order.events key must be orderId"
    payment_msg ← wait_for_message "Timeout waiting for payment.events" is_payment_outcome payments
    order_id ← read "orderId" (get "payload" payment_msg.envelope)
    assert (strict_equal order_id (str order.order_id)) "payment event orderId mismatch"
    assert (strict_equal payment_msg.key (str order.order_id)) "payment.events key must be orderId"
    verify_outcome payment_msg.envelope
