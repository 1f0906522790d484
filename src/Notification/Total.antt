-- ===== src/Notification/Total.antt =====
-- A reservation is answered with two notifications.
use eventflow_kafka_microser.Notification.{handle_payment_events, on_parsed, handle_payment_failed}
use eventflow_kafka_microser.Prelude.{◌≡◌, refl, String, ◌==◌, false, true, ap, ◌∙◌}
use eventflow_kafka_microser.Js.Host.{Host, is_object}
use eventflow_kafka_microser.Kafka.Publisher.{KafkaEventTransport}
use eventflow_kafka_microser.Kafka.Publisher.Laws.{Transports}
use eventflow_kafka_microser.Kafka.Publisher.Reliable.{Reliable}
use eventflow_kafka_microser.Js.Value.{Value, get, prop, Fields, str, end}
use eventflow_kafka_microser.Notification.{
  handle_stock_reserved_event, ◌>>=◌, run, handle_stock_reserved, handled,
}
use eventflow_kafka_microser.Js.Io.{◌>>=◌, World, draw}
use eventflow_kafka_microser.Notification.Laws.{
  Notifies, notification_policy, stock_reserved_handler, notify-Notifies,
}
use eventflow_kafka_microser.Events.Envelope.{create_event_envelope, event_params, envelope_object}
use eventflow_kafka_microser.Kafka.Wire.{
  resolve_partition_key, get_partition_key_from_payload, parse_kafka_headers,
}
use eventflow_kafka_microser.Kafka.Consume.{
  extract_envelope, parse_payment_failed_message, accepted,
}
use eventflow_kafka_microser.Js.Errors.{ok}
use eventflow_kafka_microser.Js.Io.Returns.{Returns, >>=-Returns}
use eventflow_kafka_microser.Events.Types.{
  EventType, notification_send, stock_reserved, notification_sent, payment_failed,
}
use eventflow_kafka_microser.Kafka.Retry.Executor.Total.{event_message-exists}
use eventflow_kafka_microser.Kafka.Retry.Executor.{success}
use eventflow_kafka_microser.Kafka.Retry.Executor.Succeeds.{execute-Succeeds}
use eventflow_kafka_microser.Events.Catalog.{notification_service}
use eventflow_kafka_microser.Js.Io.Reads.{read-Returns, read-OnOk}
use eventflow_kafka_microser.Js.Io.Laws.{Keeps}

module _ ⦃H : Host⦄ {Db : Type 0} (T : KafkaEventTransport Db) (L : Transports T)
    (Y : Reliable T) where
  handle_stock_reserved-Returns :
      (event : Value) (id : String) (w : World Db)
      → is_object (get "payload" event) ≡ true
      → get "orderId" (get "payload" event) ≡ str id
      → (id == "") ≡ false
      → Returns (handle_stock_reserved T event w)
  unfolding ◌>>=◌ handle_stock_reserved create_event_envelope event_params draw envelope_object get
      prop resolve_partition_key get_partition_key_from_payload
  handle_stock_reserved-Returns event id w b e n =
      let keyed = λ (t : EventType) (v : Value) (q : resolve_partition_key v ≡ ok id).
        event_message-exists t v end id q in
      read-Returns "orderId" (get "payload" event) _ w b (
        let (m, q) = event_message-exists notification_send _ end id (rw (e, n) refl) in
        >>=-Returns (T.publish notification_send _ end) _ _
          (Y.publish-Returns notification_send _ end m _ q)
          (λ a u.
            let (m', q') = event_message-exists notification_sent _ end id (rw (e, n) refl) in
            Y.publish-Returns notification_sent _ end m' _ q'))

  -- The answer is a success, and the two notifications were published for the event's order.
  abbrev pub NotifiedFor : Value → World Db → World Db → Type 0
  NotifiedFor event w w' =
      (v : World Db) × (v.sent ≡ w.sent) × (v.db ≡ w.db) × Notifies T L event v tt w'

  -- A message of `stock.reserved` whose envelope is for an order with an id is handled with success.
  pub handle_stock_reserved_event-NotifiedFor :
      (raw event : Value) (id : String) (headers : Fields) (w : World Db)
      → extract_envelope raw ≡ ok event
      → is_object (get "payload" event) ≡ true
      → get "orderId" (get "payload" event) ≡ str id
      → (id == "") ≡ false
      → (w' : World Db) × (handle_stock_reserved_event T raw headers w ≡ (ok (handled success), w'))
        × NotifiedFor event w w'
  unfolding handle_stock_reserved_event run ◌>>=◌
  handle_stock_reserved_event-NotifiedFor raw event id headers w p b e n =
      let (w', r, h) =
        execute-Succeeds T L Y notification_service (notification_policy T L) stock_reserved event
          (parse_kafka_headers headers) (stock_reserved_handler T L event) (Notifies T L event)
          handled w
          (λ v k.
            read-Returns "orderId" (get "payload" event) _ v b
              (handle_stock_reserved-Returns event id v b e n))
          (λ v.
            read-OnOk (Notifies T L event v) "orderId" (get "payload" event) _ v
              (notify-Notifies T L event v)) in
      (w', rw p r, h)

  -- A message that `parsePaymentFailedMessage` accepts is answered with success, and nothing is sent or
  -- stored.
  pub handle_payment_events-silent :
      (raw event : Value) (headers : Fields) (w : World Db)
      → parse_payment_failed_message raw ≡ ok (accepted event)
      → is_object (get "payload" event) ≡ true
      → (w' : World Db) × (handle_payment_events T raw headers w ≡ (ok (handled success), w'))
        × (w'.sent ≡ w.sent)
        × (w'.db ≡ w.db)
  unfolding handle_payment_events run handle_payment_failed
  handle_payment_events-silent raw event headers w p b =
      let (w', r, (v, s, d, (s', d'))) =
        execute-Succeeds T L Y notification_service (notification_policy T L) payment_failed event
          (parse_kafka_headers headers) (handle_payment_failed T event) Keeps handled w
          (λ v k. read-Returns "orderId" (get "payload" event) _ v b tt)
          (λ v. read-OnOk (Keeps v) "orderId" (get "payload" event) _ v (refl, refl)) in
      (w', ap (λ x. on_parsed T headers x w) p ∙ r, s' ∙ s, d' ∙ d)
