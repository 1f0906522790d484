-- ===== src/Saga/Typed.antt =====
-- The payloads that the services publish, as objects of the interfaces that their events have.
use eventflow_kafka_microser.Prelude.{◌≡◌, refl, String, true, ◌++◌, ◌∷◌, [], includes}
use eventflow_kafka_microser.Js.Io.{◌>>=◌, World, draw}
use eventflow_kafka_microser.Js.Host.{Host, Message}
use eventflow_kafka_microser.Events.Types.{
  EventType, notification_send, notification_sent, stock_reserved, stock_released,
  payment_processed, payment_failed, payment_requested,
}
use eventflow_kafka_microser.Kafka.Publisher.{KafkaEventTransport}
use eventflow_kafka_microser.Kafka.Publisher.Laws.{Transports}
use eventflow_kafka_microser.Js.Value.{Value, end, get, str, prop, items_list}
use eventflow_kafka_microser.Events.Topics.{resolve_kafka_topic}
use eventflow_kafka_microser.Events.Payloads.{
  conforms, event_payload_map, has_fields, has_type, currency_codes,
}
use eventflow_kafka_microser.Js.Errors.{ok}
use eventflow_kafka_microser.Kafka.Publisher.Keys.{event_message-keyed}
use eventflow_kafka_microser.Stock.{handle_order_cancelled, handle_payment_processed}
use eventflow_kafka_microser.Notification.{handle_stock_reserved}
use eventflow_kafka_microser.Payment.Idempotency.{ProcessedEventRepository}
use eventflow_kafka_microser.Events.Envelope.{create_event_envelope, event_params, envelope_object}
use eventflow_kafka_microser.Js.Io.Laws.{OnOk, OnOk-self, >>=-OnOk}
use eventflow_kafka_microser.Payment.Service.{
  publish_payment_requested, publish_payment_processed, publish_payment_failed,
}
use eventflow_kafka_microser.Js.Io.Reads.{read-OnOk}
use eventflow_kafka_microser.Payment.Order.{OrderCreated}

module _ ⦃H : Host⦄ where
  -- One record was accepted, on the topic of the type and with a payload of its interface.
  abbrev pub Types : {Db : Type 0} → EventType → World Db → Unit {0} → World Db → Type 0
  Types t w a w' =
      (m : Message) × (m.topic ≡ resolve_kafka_topic t)
      × (w'.sent ≡ w.sent ++ m ∷ [])
      × (conforms (event_payload_map t) (get "payload" m.value) ≡ true)

  module _ {Db : Type 0} (T : KafkaEventTransport Db) (L : Transports T) where
    published-Types :
        (t : EventType) (v : Value) (w w' : World Db)
        → T.publish t v end w ≡ (ok tt, w')
        → conforms (event_payload_map t) (get "payload" v) ≡ true
        → Types t w tt w'
    published-Types t v w w' h c =
        let (m, e, a) = L.publish-ok t v end w w' h in
        let (topic, value, key) = event_message-keyed t v end m e in (m, topic, a.0, rw value c)

    reserve-Types :
        (event : Value) (id : String) (w : World Db)
        → get "orderId" (get "payload" event) ≡ str id
        → OnOk (Types stock_reserved w) (handle_payment_processed T event w)
    unfolding ◌>>=◌ handle_payment_processed create_event_envelope event_params draw envelope_object
        get prop event_payload_map has_fields has_type items_list
    reserve-Types event id w e =
        read-OnOk (Types stock_reserved w) "orderId" (get "payload" event) _ w (
          OnOk-self (Types stock_reserved w) _
            (λ a w' h. published-Types stock_reserved _ _ w' h (rw e refl)))

    release-Types :
        (event : Value) (id reason : String) (w : World Db)
        → get "orderId" (get "payload" event) ≡ str id
        → get "reason" (get "payload" event) ≡ str reason
        → OnOk (Types stock_released w) (handle_order_cancelled T event w)
    unfolding ◌>>=◌ handle_order_cancelled create_event_envelope event_params draw envelope_object
        get prop event_payload_map has_fields has_type
    release-Types event id reason w e r =
        read-OnOk (Types stock_released w) "orderId" (get "payload" event) _ w (
          OnOk-self (Types stock_released w) _
            (λ a w' h. published-Types stock_released _ _ w' h (rw (e, r) refl)))

    -- The two notifications, one after the other.
    abbrev pub Notes : World Db → Unit {0} → World Db → Type 0
    Notes w a w' = (u : World Db) × Types notification_send w tt u × Types notification_sent u tt w'

    notify-Notes :
        (event : Value) (id : String) (w : World Db)
        → get "orderId" (get "payload" event) ≡ str id
        → OnOk (Notes w) (handle_stock_reserved T event w)
    unfolding ◌>>=◌ handle_stock_reserved create_event_envelope event_params draw envelope_object
        get prop event_payload_map has_fields has_type
    notify-Notes event id w e = read-OnOk (Notes w) "orderId" (get "payload" event) _ w (
        >>=-OnOk (Notes w) (T.publish notification_send _ end) _ _ (λ a u h.
          let (m, t, s, c) = published-Types notification_send _ _ u h (rw e refl) in
          OnOk-self (Notes w) _
            (λ b w' i. (u, (m, t, s, c), published-Types notification_sent _ _ w' i (rw e refl)))))

    module _ (R : ProcessedEventRepository Db) where
      requested-Types :
          (event : OrderCreated) (p : String) (w : World Db)
          → includes currency_codes event.payload.currency ≡ true
          → OnOk
              (λ (v : Value) w'. Types payment_requested w tt w')
              (publish_payment_requested T R event p w)
      unfolding ◌>>=◌ publish_payment_requested create_event_envelope event_params draw
          envelope_object get prop event_payload_map has_fields has_type
      requested-Types event p w c =
          >>=-OnOk (λ (v : Value) w'. Types payment_requested w tt w')
            (T.publish payment_requested _ end) _ _
            (λ a w' h. published-Types payment_requested _ _ w' h (rw c refl))

      processed-Types :
          (p id t : String) (cause : Value) (w : World Db)
          → OnOk (Types payment_processed w) (publish_payment_processed T R p id t cause w)
      unfolding ◌>>=◌ publish_payment_processed create_event_envelope event_params draw
          envelope_object get prop event_payload_map has_fields has_type
      processed-Types p id t c w =
          OnOk-self (Types payment_processed w) _
            (λ a w' h. published-Types payment_processed _ _ w' h refl)

      failed-Types :
          (p id reason : String) (cause : Value) (w : World Db)
          → OnOk (Types payment_failed w) (publish_payment_failed T R p id reason cause w)
      unfolding ◌>>=◌ publish_payment_failed create_event_envelope event_params draw envelope_object
          get prop event_payload_map has_fields has_type
      failed-Types p id t c w =
          OnOk-self (Types payment_failed w) _
            (λ a w' h. published-Types payment_failed _ _ w' h refl)

      -- The payload of each record that payment-service, stock-service and notification-service publish
      -- is an object of the interface that `EventPayloadMap` has for its event, and the record is on the
      -- topic of that event: for the three publications of a payment whose currency is one of the
      -- declared literals; and for what the handlers publish, if they return: the one of payment.processed
      -- and the one of stock.reserved for an event whose order id is a text, and the one of
      -- order.cancelled for an event whose order id and reason are texts. The transport keeps its
      -- interface.
      pub services-Types :
          (order : OrderCreated) (p detail : String) (cause : Value)
          (processed cancelled reserved : Value) (paid_id cancelled_id reason reserved_id : String)
          (w : World Db)
          → includes currency_codes order.payload.currency ≡ true
          → get "orderId" (get "payload" processed) ≡ str paid_id
          → get "orderId" (get "payload" cancelled) ≡ str cancelled_id
          → get "reason" (get "payload" cancelled) ≡ str reason
          → get "orderId" (get "payload" reserved) ≡ str reserved_id
          → OnOk
              (λ (v : Value) w'. Types payment_requested w tt w')
              (publish_payment_requested T R order p w)
            × OnOk
                (Types payment_processed w)
                (publish_payment_processed T R p order.payload.order_id detail cause w)
            × OnOk
                (Types payment_failed w)
                (publish_payment_failed T R p order.payload.order_id detail cause w)
            × OnOk (Types stock_reserved w) (handle_payment_processed T processed w)
            × OnOk (Types stock_released w) (handle_order_cancelled T cancelled w)
            × OnOk (Notes w) (handle_stock_reserved T reserved w)
      services-Types order p detail cause processed cancelled reserved pid cid reason rid w c e f r
            g =
          (
            requested-Types order p w c,
            processed-Types p order.payload.order_id detail cause w,
            failed-Types p order.payload.order_id detail cause w,
            reserve-Types processed pid w e,
            release-Types cancelled cid reason w f r,
            notify-Notes reserved rid w g,
          )
