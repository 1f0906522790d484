-- ===== src/Scripts/Flows/Passes.antt =====
-- What the services publish, under the checks of the scripts.
use eventflow_kafka_microser.Prelude.{
  ◌≡◌, refl, String, Bool, true, List, [], ◌∷◌, ◌++◌, All, ◌↔◌, ℕ, eq_refl, arith, false, none,
  some,
}
use eventflow_kafka_microser.Js.Errors.{Result, ok, ◌>>=◌, ◌>>◌}
use eventflow_kafka_microser.Js.Value.{Value, str, get, prop, undefined, null}
use eventflow_kafka_microser.Scripts.{
  wait_for_message, assert, Delivery, each_message, Awaited, strict_equal, delivered,
}
use eventflow_kafka_microser.Js.Host.{Host, read, is_object, truthy, Message}
use eventflow_kafka_microser.Orders.Service.{
  OrderEntity, CreateOrderResponse, to_create_order_response, with_event_id, order_payload,
}
use eventflow_kafka_microser.Scripts.Flows.{
  verify_order, is_order_created, verify_full_flow, is_payment_outcome, verify_outcome,
  order_message,
}
use eventflow_kafka_microser.Events.Envelope.{envelope_object}
use eventflow_kafka_microser.Saga.Orders.{order_event_of}
use eventflow_kafka_microser.Events.Types.{event_name}
use eventflow_kafka_microser.Js.Text.{not_blank}
use eventflow_kafka_microser.Js.Text.Blank.{not_blank-not_empty}
use eventflow_kafka_microser.Payment.Idempotency.{ProcessedEventOutcome, skipped_duplicate_order}
use eventflow_kafka_microser.Saga.Payments.{IsReadAs}
use eventflow_kafka_microser.Kafka.Consume.Pipelines.{
  parse_payment_processed_message-accepted_iff, parse_payment_failed_message-accepted_iff,
}
use eventflow_kafka_microser.Payment.Idempotency.{approved}

-- A record that the wait passes over.
abbrev pub IsPassedOver : (Value → Result Bool) → Delivery → Type 0
IsPassedOver filter d = each_message filter d ≡ ok none

pub wait_for_message-found :
    (timeout : String) (filter : Value → Result Bool) (before after : List Delivery) (d : Delivery)
    (a : Awaited)
    → All (IsPassedOver filter) before
    → each_message filter d ≡ ok (some a)
    → wait_for_message timeout filter (before ++ d ∷ after) ≡ ok a
unfolding wait_for_message
wait_for_message-found t f [] after d a h e = rw (wait_for_message, e) refl
wait_for_message-found t f (b ∷ before) after d a (p, h) e =
    rw (wait_for_message, p) (wait_for_message-found t f before after d a h e)

pub assert_iff : (b : Bool) (message : String) → (assert b message ≡ ok tt) ↔ (b ≡ true)
unfolding assert
assert_iff true m = (λ h. refl, λ h. refl)
assert_iff false m = (λ h. ground arith, λ h. ground arith)

module _ ⦃H : Host⦄ where
  -- The answer of `createOrder` for an order with the event of the given draw, and its record.
  abbrev pub response_of : OrderEntity → ℕ → CreateOrderResponse
  response_of order n = to_create_order_response (with_event_id order (H.uuid n)) (some (H.uuid n))

  abbrev pub record_of : OrderEntity → ℕ → ℕ → ℕ → Delivery
  record_of order n k p = record {
    partition = p;
    key = str order.id;
    body = some (ok (order_event_of order n k));
  }

  record_of-found :
      (timeout : String) (order : OrderEntity) (n k p : ℕ) (before after : List Delivery)
      → All (IsPassedOver is_order_created) before
      → wait_for_message timeout is_order_created (before ++ record_of order n k p ∷ after)
        ≡ ok (record { envelope = order_event_of order n k; key = str order.id })
  unfolding each_message is_order_created strict_equal envelope_object get prop read ◌>>=◌
      event_name
  record_of-found timeout order n k p before after h =
      wait_for_message-found timeout is_order_created before after (record_of order n k p)
        (record { envelope = order_event_of order n k; key = str order.id }) h refl

  pub verify_order-record_of :
      (order : OrderEntity) (n k p : ℕ) (before after : List Delivery)
      → All (IsPassedOver is_order_created) before
      → (verify_order (response_of order n) (before ++ record_of order n k p ∷ after) ≡ ok tt)
        ↔ (H.eq order.total_amount (H.lit 998 1) ≡ true)
  unfolding verify_order order_message ◌>>=◌ ◌>>◌ strict_equal envelope_object get prop read
      to_create_order_response order_payload assert
  verify_order-record_of order n k p before after h =
      rw
        (
          record_of-found "No message on order.events within 45000ms" order n k p before after h,
          eq_refl order.id,
          eq_refl (H.uuid n),
        )
        (assert_iff _ _)

  pub verify_full_flow-record_of :
      (order : OrderEntity) (n k p : ℕ) (before after : List Delivery) (payments : List Delivery)
      (v : Value)
      → All (IsPassedOver is_order_created) before
      → wait_for_message "Timeout waiting for payment.events" is_payment_outcome payments
        ≡ ok (record { envelope = v; key = str order.id })
      → read "orderId" (get "payload" v) ≡ ok (str order.id)
      → verify_outcome v ≡ ok tt
      → verify_full_flow (response_of order n) (before ++ record_of order n k p ∷ after) payments
        ≡ ok tt
  unfolding verify_full_flow ◌>>=◌ ◌>>◌ strict_equal envelope_object get prop
      to_create_order_response assert
  verify_full_flow-record_of order n k p before after payments v h e i o =
      rw
        (
          record_of-found "Timeout waiting for order.events" order n k p before after h,
          eq_refl order.id,
          eq_refl (H.uuid n),
          e,
          i,
          eq_refl order.id,
          o,
        )
        refl

  pub read-object : (k : String) (v : Value) → is_object v ≡ true → read k v ≡ ok (get k v)
  unfolding read
  read-object k undefined h = cc
  read-object k null h = cc
  read-object k v h = refl

  not_empty-truthy : (t : String) → not_blank t ≡ true → truthy (str t) ≡ true
  unfolding truthy
  not_empty-truthy t h = rw (not_blank-not_empty t h) refl

  -- What the payment's checks ask of the envelope of an outcome.
  abbrev pub IsPassing : Value → Type 0
  IsPassing v =
      (is_payment_outcome v ≡ ok true)
      × (verify_outcome v ≡ ok tt)
      × (is_object (get "payload" v) ≡ true)

  pub IsReadAs-IsPassing : (o : ProcessedEventOutcome) (v : Value) → IsReadAs o v → IsPassing v
  unfolding is_payment_outcome verify_outcome strict_equal event_name ◌>>=◌ assert
  IsReadAs-IsPassing approved v h =
      let (read, fine) = (parse_payment_processed_message-accepted_iff v v).0 h in
      let (object, (payment, (id, ((t, e, b), rest)))) = fine.payload in
      let type : get "eventType" v ≡ str "payment.processed" = fine.envelope.event_type in
      (
        rw (read-object "eventType" v fine.envelope.object, type) refl,
        rw (type, e, not_empty-truthy t b) refl,
        object,
      )
  IsReadAs-IsPassing ProcessedEventOutcome.failed v h =
      let (read, fine) = (parse_payment_failed_message-accepted_iff v v).0 h in
      let type : get "eventType" v ≡ str "payment.failed" = fine.envelope.event_type in
      (rw (read-object "eventType" v fine.envelope.object, type) refl, rw type refl, fine.payload.0)
  IsReadAs-IsPassing skipped_duplicate_order v h = elim h [ ]

  pub delivered-found :
      (m : Message) (p : ℕ)
      → is_payment_outcome m.value ≡ ok true
      → each_message is_payment_outcome (delivered m p)
        ≡ ok (some (record { envelope = m.value; key = m.key }))
  unfolding each_message ◌>>=◌
  delivered-found m p h = rw h refl
