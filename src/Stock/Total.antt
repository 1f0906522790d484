-- ===== src/Stock/Total.antt =====
-- A payment that is accepted is answered with a reservation.
use eventflow_kafka_microser.Prelude.{◌≡◌, refl, String, ◌==◌, false, true, ◌∙◌, ap}
use eventflow_kafka_microser.Js.Io.{World, ◌>>=◌, draw}
use eventflow_kafka_microser.Js.Io.Returns.{Returns}
use eventflow_kafka_microser.Js.Io.Reads.{read-Returns}
use eventflow_kafka_microser.Js.Host.{Host, is_object}
use eventflow_kafka_microser.Js.Errors.{ok}
use eventflow_kafka_microser.Js.Value.{Value, Fields, get, str, end, prop}
use eventflow_kafka_microser.Kafka.Publisher.{KafkaEventTransport}
use eventflow_kafka_microser.Kafka.Publisher.Laws.{Transports}
use eventflow_kafka_microser.Kafka.Publisher.Reliable.{Reliable}
use eventflow_kafka_microser.Kafka.Retry.Executor.Total.{event_message-exists}
use eventflow_kafka_microser.Stock.{
  handle_payment_processed, handle_payment_events, run, on_parsed, handled,
}
use eventflow_kafka_microser.Stock.Laws.{Answers, reserve-Answers, stock_policy}
use eventflow_kafka_microser.Events.Envelope.{create_event_envelope, event_params, envelope_object}
use eventflow_kafka_microser.Events.Types.{stock_reserved, payment_processed}
use eventflow_kafka_microser.Kafka.Retry.Executor.{success}
use eventflow_kafka_microser.Events.Catalog.{stock_service}
use eventflow_kafka_microser.Kafka.Wire.{
  resolve_partition_key, get_partition_key_from_payload, parse_kafka_headers,
}
use eventflow_kafka_microser.Kafka.Consume.{parse_payment_processed_message, accepted}
use eventflow_kafka_microser.Kafka.Retry.Executor.Succeeds.{execute-Succeeds}

module _ ⦃H : Host⦄ {Db : Type 0} (T : KafkaEventTransport Db) (L : Transports T)
    (Y : Reliable T) where
  handle_payment_processed-Returns :
      (event : Value) (id : String) (w : World Db)
      → is_object (get "payload" event) ≡ true
      → get "orderId" (get "payload" event) ≡ str id
      → (id == "") ≡ false
      → Returns (handle_payment_processed T event w)
  unfolding ◌>>=◌ handle_payment_processed create_event_envelope event_params draw envelope_object
      get prop resolve_partition_key get_partition_key_from_payload
  handle_payment_processed-Returns event id w b e n =
      read-Returns "orderId" (get "payload" event) _ w b (
        let (m, q) = event_message-exists stock_reserved _ end id (rw (e, n) refl) in
        Y.publish-Returns stock_reserved _ end m _ q)

  -- The answer is a success, and one `stock.reserved` was published for the event's order.
  abbrev pub ReservedFor : Value → World Db → World Db → Type 0
  ReservedFor event w w' =
      (v : World Db) × (v.sent ≡ w.sent) × (v.db ≡ w.db) × Answers T L stock_reserved event v tt w'

  -- A message that `parsePaymentProcessedMessage` accepts, for an order whose id is not empty, is
  -- handled with success: one `stock.reserved` was published for its order.
  pub handle_payment_events-ReservedFor :
      (raw event : Value) (id : String) (headers : Fields) (w : World Db)
      → parse_payment_processed_message raw ≡ ok (accepted event)
      → is_object (get "payload" event) ≡ true
      → get "orderId" (get "payload" event) ≡ str id
      → (id == "") ≡ false
      → (w' : World Db) × (handle_payment_events T raw headers w ≡ (ok (handled success), w'))
        × ReservedFor event w w'
  unfolding handle_payment_events run
  handle_payment_events-ReservedFor raw event id headers w p b e n =
      let (w', r, h) =
        execute-Succeeds T L Y stock_service (stock_policy T L) payment_processed event
          (parse_kafka_headers headers) (handle_payment_processed T event)
          (Answers T L stock_reserved event) handled w
          (λ v k. handle_payment_processed-Returns event id v b e n) (reserve-Answers T L event) in
      (w', ap (λ x. on_parsed T headers x w) p ∙ r, h)
