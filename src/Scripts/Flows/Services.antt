-- ===== src/Scripts/Flows/Services.antt =====
-- The checks of the scripts against what order-service and payment-service publish.
use eventflow_kafka_microser.Prelude.{◌≡◌, true, List, [], ◌∷◌, ◌++◌, All, ◌↔◌, ℕ, ap, ◌∙◌, refl}
use eventflow_kafka_microser.Js.Host.{Host, Message, int}
use eventflow_kafka_microser.Kafka.Publisher.{KafkaEventTransport}
use eventflow_kafka_microser.Kafka.Publisher.Laws.{Transports}
use eventflow_kafka_microser.Orders.Service.{
  OrderRepository, CreateOrderDto, new_order, CreateOrderResponse, create_order, total_from,
  order_payload, OrderEntity,
}
use eventflow_kafka_microser.Scripts.{Delivery, delivered}
use eventflow_kafka_microser.Js.Io.{World}
use eventflow_kafka_microser.Scripts.Flows.Passes.{
  IsPassedOver, verify_order-record_of, response_of, record_of, IsReadAs-IsPassing,
  wait_for_message-found, delivered-found, verify_full_flow-record_of, read-object,
}
use eventflow_kafka_microser.Scripts.Flows.{
  is_order_created, verify_order, verify_full_flow, is_payment_outcome,
}
use eventflow_kafka_microser.Events.Topics.{resolve_kafka_topic, payment_events}
use eventflow_kafka_microser.Orders.Service.Laws.{Created, create_order-PublishedOrder}
use eventflow_kafka_microser.Js.Io.Laws.{OnOk, OnOk-map}
use eventflow_kafka_microser.Events.Types.{order_created}
use eventflow_kafka_microser.Js.Errors.{ok}
use eventflow_kafka_microser.Payment.Idempotency.{
  ProcessedEventRepository, ProcessedEventOutcome, skipped_duplicate_order,
}
use eventflow_kafka_microser.Payment.Order.{as_order_created, order_created_payload}
use eventflow_kafka_microser.Payment.Service.{process_payment}
use eventflow_kafka_microser.Saga.Envelopes.{Generators, uuid-not_blank_draw}
use eventflow_kafka_microser.Js.Value.{Value, get, prop}
use eventflow_kafka_microser.Saga.Payments.{IsReadAs, Understood, process_payment-Understood}
use eventflow_kafka_microser.Events.Envelope.{envelope_object}
use eventflow_kafka_microser.Payment.Service.Tells.{outcome_event}
use eventflow_kafka_microser.Payment.Idempotency.{approved}
use eventflow_kafka_microser.Js.Text.{not_blank}
use eventflow_kafka_microser.Saga.Orders.{order_event_of}

module _ ⦃H : Host⦄ {Db : Type 0} (T : KafkaEventTransport Db) (L : Transports T)
    (R : OrderRepository Db) where
  module _ (before after : List Delivery) (p : ℕ) where
    -- One record was accepted, and the check passes on it exactly if the total is 99.8.
    abbrev pub Checked : CreateOrderDto → World Db → CreateOrderResponse → World Db → Type 0
    Checked dto w response w' =
        (m : Message) × (w'.sent ≡ w.sent ++ m ∷ [])
        × (m.topic ≡ resolve_kafka_topic order_created)
        × ((verify_order response (before ++ delivered m p ∷ after) ≡ ok tt)
            ↔ (H.eq (total_from (int 0) dto.items) (H.lit 998 1) ≡ true))

    Created-Checked :
        (dto : CreateOrderDto) (w : World Db) (response : CreateOrderResponse) (w' : World Db)
        → All (IsPassedOver is_order_created) before
        → Created T L R dto w response w'
        → Checked dto w response w'
    unfolding new_order
    Created-Checked dto w response w' h (n, u, (s, d), (i, m, (t, k, a, b, e, v), x, y, r)) = (
      m,
      x ∙ ap (λ l. l ++ m ∷ []) s,
      t,
      rw (r, v, k, e) (verify_order-record_of (new_order (H.uuid n) dto) a b p before after h),
    )

    -- If `createOrder` returns, it has published one record on `order.events`, and
    -- verify-order-kafka-flow.mjs, with the answer and with that record behind any records that it
    -- passes over, finds no fault exactly if the total of the order is 99.8. The transport keeps its
    -- interface.
    pub create_order-Checked :
        (dto : CreateOrderDto) (w : World Db)
        → All (IsPassedOver is_order_created) before
        → OnOk (Checked dto w) (create_order T R dto w)
    create_order-Checked dto w h =
        OnOk-map (Created T L R dto w) (Checked dto w) _ (λ r w' c. Created-Checked dto w r w' h c)
          (create_order-PublishedOrder T L R dto w)

  module _ {Db' : Type 0} (T' : KafkaEventTransport Db') (L' : Transports T')
      (P : ProcessedEventRepository Db') (before after settled_before settled_after : List Delivery)
      (p p' : ℕ) where
    -- Two records were accepted, with the second of which, on `payment.events`, the check passes.
    abbrev pub Paid : CreateOrderResponse → Delivery → World Db' → Unit {0} → World Db' → Type 0
    Paid response d v a v' =
        (requested m : Message) × (v'.sent ≡ v.sent ++ requested ∷ m ∷ [])
        × (m.topic ≡ payment_events)
        × (verify_full_flow response (before ++ d ∷ after)
              (settled_before ++ delivered m p' ∷ settled_after)
            ≡ ok tt)

    settled_topic :
        (o : ProcessedEventOutcome) (v : Value)
        → IsReadAs o v
        → resolve_kafka_topic (outcome_event o) ≡ payment_events
    unfolding resolve_kafka_topic
    settled_topic approved v h = refl
    settled_topic ProcessedEventOutcome.failed v h = refl
    settled_topic skipped_duplicate_order v h = elim h [ ]

    record_of-Paid :
        (G : Generators H) (order : OrderEntity) (n k : ℕ) (v : World Db')
        → not_blank order.id ≡ true
        → All (IsPassedOver is_order_created) before
        → All (IsPassedOver is_payment_outcome) settled_before
        → OnOk
            (Paid (response_of order n) (record_of order n k p) v)
            (process_payment T' P (as_order_created (order_event_of order n k)) v)
    unfolding as_order_created order_created_payload envelope_object order_payload get prop
    record_of-Paid G order n k v b h i =
        OnOk-map (Understood T' L' P (as_order_created (order_event_of order n k)) v)
          (Paid (response_of order n) (record_of order n k p) v) _
          (λ a v' (q, m, o, j, s, t, key, r, id, d).
            let (fits, passes, object) = IsReadAs-IsPassing o m.value r in
            let found =
              wait_for_message-found "Timeout waiting for payment.events" is_payment_outcome
                settled_before settled_after (delivered m p')
                (record { envelope = m.value; key = m.key }) i (delivered-found m p' fits) in
            (
              q,
              m,
              s,
              t ∙ settled_topic o m.value r,
              verify_full_flow-record_of order n k p before after _ m.value h
                  (found ∙ ap (λ x. ok (record { envelope = m.value; key = x })) key)
                  (read-object "orderId" (get "payload" m.value) object ∙ ap (λ x. ok x) id) passes,
            ))
          (process_payment-Understood T' L' P G (as_order_created (order_event_of order n k)) v b)

    -- One record was accepted, and what `processPayment` publishes for it passes the check too.
    abbrev pub Flows :
        World Db' → CreateOrderDto → World Db → CreateOrderResponse → World Db → Type 0
    Flows v dto w response w' =
        (m : Message) × (w'.sent ≡ w.sent ++ m ∷ [])
        × (m.topic ≡ resolve_kafka_topic order_created)
        × OnOk (Paid response (delivered m p) v) (process_payment T' P (as_order_created m.value) v)

    Created-Flows :
        (G : Generators H) (v : World Db') (dto : CreateOrderDto) (w : World Db)
        (response : CreateOrderResponse) (w' : World Db)
        → All (IsPassedOver is_order_created) before
        → All (IsPassedOver is_payment_outcome) settled_before
        → Created T L R dto w response w'
        → Flows v dto w response w'
    unfolding new_order
    Created-Flows G v dto w response w' h i (n, u, (s, d), (j, m, (t, k, a, b, e, f), x, y, r)) = (
      m,
      x ∙ ap (λ l. l ++ m ∷ []) s,
      t,
      rw (r, f, k, e)
          (record_of-Paid G (new_order (H.uuid n) dto) a b v (uuid-not_blank_draw G n) h i),
    )

    -- If `createOrder` returns, it has published one record on `order.events`; and if payment-service's
    -- `processPayment` returns for the event of that record, from any state, it has published two, the
    -- second on `payment.events`, and verify-payment-full-flow.mjs, with the answer of `createOrder`,
    -- finds no fault with the order's record and that second one, each behind any records that the
    -- script passes over. Both transports keep their interface, and `randomUUID` and `toISOString`
    -- give texts of their documented formats.
    pub create_order-Flows :
        (G : Generators H) (v : World Db') (dto : CreateOrderDto) (w : World Db)
        → All (IsPassedOver is_order_created) before
        → All (IsPassedOver is_payment_outcome) settled_before
        → OnOk (Flows v dto w) (create_order T R dto w)
    create_order-Flows G v dto w h i =
        OnOk-map (Created T L R dto w) (Flows v dto w) _
          (λ r w' c. Created-Flows G v dto w r w' h i c) (create_order-PublishedOrder T L R dto w)
