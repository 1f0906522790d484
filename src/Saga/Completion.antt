-- ===== src/Saga/Completion.antt =====
-- From a payment to the status of its order, through stock-service, notification-service and
-- order-service.
use eventflow_kafka_microser.Prelude.{
  ◌≡◌, String, ◌==◌, false, true, none, eqb, ◌++◌, ◌∷◌, [], ◌∙◌, ap, ℕ, append_assoc, subst, sym,
}
use eventflow_kafka_microser.Stock
use eventflow_kafka_microser.Notification
use eventflow_kafka_microser.Orders.Consumer
use eventflow_kafka_microser.Js.Host.{Host, Message, is_object}
use eventflow_kafka_microser.Kafka.Publisher.{KafkaEventTransport}
use eventflow_kafka_microser.Orders.Service.{OrderRepository, completed, OrderStatus}
use eventflow_kafka_microser.Orders.Consumer.{id_text}
use eventflow_kafka_microser.Kafka.Publisher.Laws.{Transports}
use eventflow_kafka_microser.Events.Types.{notification_send, stock_reserved, notification_sent}
use eventflow_kafka_microser.Js.Value.{Value, get, Fields, str}
use eventflow_kafka_microser.Payment.Idempotency.{
  ProcessedEventOutcome, ProcessedEventRepository, skipped_duplicate_order,
}
use eventflow_kafka_microser.Kafka.Publisher.Reliable.{Reliable}
use eventflow_kafka_microser.Js.Io.{World}
use eventflow_kafka_microser.Kafka.Consume.{extract_envelope}
use eventflow_kafka_microser.Js.Errors.{ok}
use eventflow_kafka_microser.Events.Topics.{resolve_kafka_topic}
use eventflow_kafka_microser.Kafka.Retry.Executor.{success}
use eventflow_kafka_microser.Orders.Consumer.Laws.{order_of}
use eventflow_kafka_microser.Orders.Consumer.Total.{
  handle_notification_sent-StatusFor, handle_payment_events-StatusFor,
}
use eventflow_kafka_microser.Notification.Total.{
  handle_stock_reserved_event-NotifiedFor, handle_payment_events-silent,
}
use eventflow_kafka_microser.Saga.Payments.{IsReadAs, Understood, process_payment-Understood}
use eventflow_kafka_microser.Kafka.Consume.Pipelines.{
  parse_payment_processed_message-accepted_iff, parse_payment_failed_message-accepted_iff,
}
use eventflow_kafka_microser.Payment.Order.{OrderCreated}
use eventflow_kafka_microser.Saga.Envelopes.{Generators}
use eventflow_kafka_microser.Payment.Idempotency.{approved}
use eventflow_kafka_microser.Stock.Total.{handle_payment_events-ReservedFor}
use eventflow_kafka_microser.Payment.Service.{outcome_row, process_payment}
use eventflow_kafka_microser.Js.Text.{not_blank}
use eventflow_kafka_microser.Js.Io.Laws.{OnOk, OnOk-map}
use eventflow_kafka_microser.Js.Text.Blank.{not_blank-not_empty}
use eventflow_kafka_microser.Saga.Stock.{passed_over}

-- A service as a message reaches it: its transport, the headers of the message and its state.
pub record Receiver ⦃H : Host⦄ (Db : Type 0) : Type 1 where
  pub transport : KafkaEventTransport Db
  pub laws : Transports transport
  pub reliable : Reliable transport
  pub headers : Fields
  pub state : World Db

module _ ⦃H : Host⦄ {DbS DbN DbO : Type 0} (S : Receiver DbS) (N : Receiver DbN) (O : Receiver DbO)
    (R : OrderRepository DbO) where
  -- order-service answers a record of `notification.sent` with success, and the order is completed.
  abbrev Completed : String → Value → Type 0
  Completed id v =
      (o' : World DbO) × (Consumer.handle_notification_sent O.transport R v O.headers O.state
        ≡ (ok (Consumer.handled success), o'))
      × (o'.db ≡ R.update_status O.state.db id completed)

  -- notification-service answers a record of `stock.reserved` with success and two records, with the
  -- second of which order-service completes the order.
  abbrev Informed : String → Value → Type 0
  Informed id v =
      (n' : World DbN) × (Notification.handle_stock_reserved_event N.transport v N.headers N.state
        ≡ (ok (Notification.handled success), n'))
      × (send sent : Message) × (n'.sent ≡ N.state.sent ++ send ∷ sent ∷ [])
      × (send.topic ≡ resolve_kafka_topic notification_send)
      × (sent.topic ≡ resolve_kafka_topic notification_sent)
      × Completed id sent.value

  -- What becomes of an order with the event of its payment's outcome: an approved payment is followed
  -- by a reservation, by two notifications and by the completion of the order, and a failed one by the
  -- failure of the order, while stock-service skips it and notification-service sends nothing.
  abbrev pub Settled : String → ProcessedEventOutcome → Value → Type 0
  Settled id approved v =
      (s' : World DbS) × (Stock.handle_payment_events S.transport v S.headers S.state
        ≡ (ok (Stock.handled success), s'))
      × (m : Message) × (s'.sent ≡ S.state.sent ++ m ∷ [])
      × (m.topic ≡ resolve_kafka_topic stock_reserved)
      × Informed id m.value
  Settled id ProcessedEventOutcome.failed v =
      (Stock.handle_payment_events S.transport v S.headers S.state
        ≡ (ok (Stock.skipped (get "eventType" v)), S.state))
      × (n' : World DbN) × (Notification.handle_payment_events N.transport v N.headers N.state
          ≡ (ok (Notification.handled success), n'))
      × (n'.sent ≡ N.state.sent)
      × (n'.db ≡ N.state.db)
      × (o' : World DbO) × (Consumer.handle_payment_events O.transport R v O.headers O.state
          ≡ (ok (Consumer.handled success), o'))
      × (o'.db ≡ R.update_status O.state.db id OrderStatus.failed)
  Settled id skipped_duplicate_order v = ⊥

  order_of-str :
      (id : String) (v : Value) → get "orderId" (get "payload" v) ≡ str id → order_of v ≡ id
  unfolding id_text
  order_of-str id v e = ap id_text e

  module _ (updates : (n : ℕ) (id : String) → R.update_error n id ≡ none) (id : String)
      (named : (id == "") ≡ false) (known : eqb (R.affected O.state.db id) 0 ≡ false) where
    at_order :
        (v : Value)
        → get "orderId" (get "payload" v) ≡ str id
        → eqb (R.affected O.state.db (order_of v)) 0 ≡ false
    at_order v e = ap (λ x. eqb (R.affected O.state.db x) 0) (order_of-str id v e) ∙ known

    completes :
        (v : Value)
        → extract_envelope v ≡ ok v
        → is_object (get "payload" v) ≡ true
        → get "orderId" (get "payload" v) ≡ str id
        → Completed id v
    completes v x b e =
        let (o', r, (s, d)) =
          handle_notification_sent-StatusFor O.transport O.laws O.reliable R updates v v O.headers
            O.state x b (at_order v e) in
        (o', r, d ∙ ap (λ i. R.update_status O.state.db i completed) (order_of-str id v e))

    informs :
        (v : Value)
        → extract_envelope v ≡ ok v
        → is_object (get "payload" v) ≡ true
        → get "orderId" (get "payload" v) ≡ str id
        → Informed id v
    informs v x b e =
        let (
          n',
          r,
          (u, s, d, (note, sent, u', (m, t, k, y, step, acc), (m2, t2, k2, y2, step2, acc2))),
        ) =
          handle_stock_reserved_event-NotifiedFor N.transport N.laws N.reliable v v id N.headers
            N.state x b e named in
        (
          n',
          r,
          m,
          m2,
          acc2.0
              ∙ ap (λ l. l ++ m2 ∷ []) (acc.0 ∙ ap (λ l. l ++ m ∷ []) s)
              ∙ append_assoc N.state.sent _ _,
          t,
          t2,
          subst (Completed id) (sym y2) (completes sent step2.5 step2.4 (step2.3 ∙ e)),
        )

    settles :
        (o : ProcessedEventOutcome) (v : Value)
        → IsReadAs o v
        → get "orderId" (get "payload" v) ≡ str id
        → Settled id o v
    settles approved v h e =
        let (read, fine) = (parse_payment_processed_message-accepted_iff v v).0 h in
        let (s', r, (u, s, d, (answer, (m, t, k, y, step, acc)))) =
          handle_payment_events-ReservedFor S.transport S.laws S.reliable v v id S.headers S.state h
            fine.payload.0 e named in
        (
          s',
          r,
          m,
          acc.0 ∙ ap (λ l. l ++ m ∷ []) s,
          t,
          subst (Informed id) (sym y) (informs answer step.5 step.4 (step.3 ∙ e)),
        )
    settles skipped_duplicate_order v h e = elim h [ ]
    settles ProcessedEventOutcome.failed v h e =
        let (read, fine) = (parse_payment_failed_message-accepted_iff v v).0 h in
        let (o', r, (s, d)) =
          handle_payment_events-StatusFor O.transport O.laws O.reliable R updates v v O.headers
            O.state h fine.payload.0 (at_order v e) in
        let (n', told, same, kept) =
          handle_payment_events-silent N.transport N.laws N.reliable v v N.headers N.state h
            fine.payload.0 in
        (
          passed_over S.transport S.laws S.reliable S.headers S.state v h,
          n',
          told,
          same,
          kept,
          o',
          r,
          d ∙ ap (λ i. R.update_status O.state.db i OrderStatus.failed) (order_of-str id v e),
        )

  module _ {Db : Type 0} (T : KafkaEventTransport Db) (L : Transports T)
      (P : ProcessedEventRepository Db) where
    -- Two records were accepted, the row with the outcome was stored, and the other services settle
    -- the order with the second record.
    abbrev pub Concluded : OrderCreated → World Db → Unit {0} → World Db → Type 0
    Concluded event v a v' =
        (requested m : Message) × (o : ProcessedEventOutcome) × (n : ℕ) × (v'.sent
          ≡ v.sent ++ requested ∷ m ∷ [])
        × (v'.db ≡ P.save v.db (outcome_row T P event (H.uuid n) o))
        × Settled event.payload.order_id o m.value

    -- If `processPayment` returns for an order that order-service has, its outcome becomes the status
    -- of the order: payment-service published two records, and where the row that it stored says
    -- approved, stock-service answers the second with success and one `stock.reserved`,
    -- notification-service answers that with success, `notification.send` and `notification.sent`, and
    -- order-service answers the last with success and sets the order to completed; where the row says
    -- failed, stock-service skips the second record and changes nothing, notification-service answers
    -- it with success and sends and stores nothing, and order-service answers it with success and sets
    -- the order to failed. The services may be in any state and the headers of
    -- each record any. The order's id is not blank, the transports keep their interface, those of the
    -- three receivers publish, no update of the orders is refused, and `randomUUID` and `toISOString`
    -- give texts of their documented formats.
    pub process_payment-Concluded :
        (G : Generators H) (updates : (n : ℕ) (id : String) → R.update_error n id ≡ none)
        (event : OrderCreated) (v : World Db)
        → not_blank event.payload.order_id ≡ true
        → eqb (R.affected O.state.db event.payload.order_id) 0 ≡ false
        → OnOk (Concluded event v) (process_payment T P event v)
    process_payment-Concluded G updates event v b k =
        OnOk-map (Understood T L P event v) (Concluded event v) _
          (λ a v' (q, m, o, n, s, t, c, r, i, d). (
            q,
            m,
            o,
            n,
            s,
            d,
            settles updates event.payload.order_id (not_blank-not_empty _ b) k o m.value r i,
          ))
          (process_payment-Understood T L P G event v b)
