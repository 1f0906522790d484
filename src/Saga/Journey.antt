-- ===== src/Saga/Journey.antt =====
-- From the request of an order to its status, through all the services.
use eventflow_kafka_microser.Prelude.{
  ◌≡◌, String, false, true, none, some, eqb, ℕ, ◌++◌, ◌∷◌, [], ap, sym, ◌∙◌, arith, subst,
}
use eventflow_kafka_microser.Payment.Idempotency.{
  check, IdempotencyCheckResult, ProcessedEventRepository, ProcessedEvent,
}
use eventflow_kafka_microser.Payment.Consumer.{handled, handle_order_events}
use eventflow_kafka_microser.Js.Host.{Host, int, Message}
use eventflow_kafka_microser.Saga.Envelopes.{Generators, uuid-not_blank_draw}
use eventflow_kafka_microser.Kafka.Publisher.{KafkaEventTransport}
use eventflow_kafka_microser.Kafka.Publisher.Laws.{Transports}
use eventflow_kafka_microser.Kafka.Publisher.Reliable.{Reliable}
use eventflow_kafka_microser.Payment.Simulator.{
  FailureScenario, scenario_at, payment_failure_scenarios,
}
use eventflow_kafka_microser.Saga.Completion.{Receiver, Concluded, process_payment-Concluded}
use eventflow_kafka_microser.Orders.Service.{
  OrderRepository, order_payload, OrderEntity, to_create_order_response, CreateOrderDto,
  CreateOrderResponse, create_order, new_order,
}
use eventflow_kafka_microser.Js.Value.{Fields, Value, get, prop}
use eventflow_kafka_microser.Js.Io.{World}
use eventflow_kafka_microser.Payment.Order.{as_order_created, order_created_payload}
use eventflow_kafka_microser.Js.Errors.{ok}
use eventflow_kafka_microser.Events.Envelope.{envelope_object}
use eventflow_kafka_microser.Kafka.Retry.Executor.{success}
use eventflow_kafka_microser.Js.Text.{not_blank}
use eventflow_kafka_microser.Saga.Orders.{IsPayable, order_event_of, order_event-accepted_iff}
use eventflow_kafka_microser.Payment.Consumer.Handled.{handle_order_events-handled}
use eventflow_kafka_microser.Js.Text.Blank.{not_blank-not_empty}
use eventflow_kafka_microser.Events.Topics.{resolve_kafka_topic}
use eventflow_kafka_microser.Events.Types.{order_created}
use eventflow_kafka_microser.Js.Io.Laws.{OnOk-ok}
use eventflow_kafka_microser.Orders.Service.Laws.{Created, create_order-PublishedOrder}

module _ ⦃H : Host⦄ {Db DbS DbN DbO : Type 0} (G : Generators H) (T : KafkaEventTransport Db)
    (L : Transports T) (Y : Reliable T) (P : ProcessedEventRepository Db)
    (saves : (n : ℕ) (row : ProcessedEvent) → P.save_error n row ≡ none)
    (picks : (n : ℕ)
      → (s : FailureScenario) × (scenario_at payment_failure_scenarios
            (H.floor (H.mul (H.random n) (int 4)))
          ≡ some s))
    (S : Receiver DbS) (N : Receiver DbN) (O : Receiver DbO) (R : OrderRepository DbO)
    (updates : (n : ℕ) (id : String) → R.update_error n id ≡ none) (headers : Fields) where
  -- payment-service answers the record with success, and what it then published and stored settles
  -- the order.
  abbrev pub Handled : World Db → Value → Type 0
  Handled v event =
      (v' : World Db) × (handle_order_events T P event headers v ≡ (ok (handled success), v'))
      × (u : World Db) × (u.sent ≡ v.sent)
      × (u.db ≡ v.db)
      × Concluded S N O R T L P (as_order_created event) u tt v'

  order_event-Handled :
      (order : OrderEntity) (n k : ℕ) (v : World Db)
      → not_blank order.id ≡ true
      → IsPayable order
      → eqb (R.affected O.state.db order.id) 0 ≡ false
      → check P v.db (H.uuid n) order.id ≡ IdempotencyCheckResult.new
      → Handled v (order_event_of order n k)
  unfolding as_order_created order_created_payload envelope_object order_payload get prop
  order_event-Handled order n k v b payable known fresh =
      let e = order_event_of order n k in
      handle_order_events-handled T L Y P saves picks (Concluded S N O R T L P (as_order_created e))
        e e headers v ((order_event-accepted_iff G order n k b).1 payable)
        (not_blank-not_empty order.id b) fresh
        (λ u. process_payment-Concluded S N O R T L P G updates (as_order_created e) u b known)

  module _ {Db' : Type 0} (T' : KafkaEventTransport Db') (L' : Transports T')
      (R' : OrderRepository Db') where
    -- One record was accepted, with which the order is settled.
    abbrev pub Journey : World Db → World Db' → World Db' → Type 0
    Journey v w w' =
        (m : Message) × (w'.sent ≡ w.sent ++ m ∷ [])
        × (m.topic ≡ resolve_kafka_topic order_created)
        × Handled v m.value

    -- An order goes its whole way: if `createOrder` answered a request whose order payment-service can
    -- read, then it published one record on `order.events`; payment-service, in any state in which
    -- neither the event nor an approved payment of the order has a row, answers that record with
    -- success, and behind a wait has published two records and stored the row of the outcome; and the
    -- other services, each in any state in which order-service has the order, answer with success what
    -- follows from the second, up to the status of the order, which is completed where the row says
    -- approved and failed where it says failed. The transports keep their interface, and all but that
    -- of `createOrder` publish; no row of a payment and no update of an order is refused; the random
    -- numbers pick one of the four scenarios of a failure; and `randomUUID` and `toISOString` give texts
    -- of their documented formats.
    pub create_order-Journey :
        (dto : CreateOrderDto) (w w' : World Db') (response : CreateOrderResponse)
        (event_id : String) (v : World Db)
        → create_order T' R' dto w ≡ (ok response, w')
        → response.event_id ≡ some event_id
        → IsPayable (new_order response.order_id dto)
        → eqb (R.affected O.state.db response.order_id) 0 ≡ false
        → check P v.db event_id response.order_id ≡ IdempotencyCheckResult.new
        → Journey v w w'
    unfolding to_create_order_response new_order
    create_order-Journey dto w w' response event_id v run named payable known fresh =
        let (n, x, (s, d), (i, m, (t, k, a, b, e, f), y, z, r)) =
          OnOk-ok (Created T' L' R' dto w) _ (create_order-PublishedOrder T' L' R' dto w) run in
        let id : response.order_id ≡ H.uuid n = ap (λ q. q.order_id) r in
        let is : some event_id ≡ some i = sym named ∙ ap (λ q. q.event_id) r in
        let same : event_id ≡ H.uuid a = (ground arith) ∙ e in
        (
          m,
          y ∙ ap (λ l. l ++ m ∷ []) s,
          t,
          rw f (
              order_event-Handled (new_order (H.uuid n) dto) a b v (uuid-not_blank_draw G n)
                (subst (λ q. IsPayable (new_order q dto)) id payable)
                (subst (λ q. eqb (R.affected O.state.db q) 0 ≡ false) id known)
                (subst (λ q. check P v.db q (H.uuid n) ≡ IdempotencyCheckResult.new) same
                  (subst (λ q. check P v.db event_id q ≡ IdempotencyCheckResult.new) id fresh))),
        )
