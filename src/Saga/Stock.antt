-- ===== src/Saga/Stock.antt =====
-- From payment-service to stock-service: what the latter does with the outcome of a payment.
use eventflow_kafka_microser.Prelude.{◌≡◌, refl, ◌≢◌, true, false, sym, ap, ◌∙◌, ◌++◌, ◌∷◌, [], ℕ}
use eventflow_kafka_microser.Js.Io.{World}
use eventflow_kafka_microser.Js.Io.Laws.{OnOk, OnOk-map}
use eventflow_kafka_microser.Js.Host.{Host, Message}
use eventflow_kafka_microser.Js.Errors.{ok}
use eventflow_kafka_microser.Js.Value.{Value, Fields, get, str}
use eventflow_kafka_microser.Js.Text.{not_blank}
use eventflow_kafka_microser.Js.Text.Blank.{not_blank-not_empty}
use eventflow_kafka_microser.Payment.Idempotency.{
  ProcessedEventOutcome, approved, ProcessedEventRepository, skipped_duplicate_order,
}
use eventflow_kafka_microser.Stock
use eventflow_kafka_microser.Stock.{Ack, handled, on_parsed}
use eventflow_kafka_microser.Stock.Total.{ReservedFor, handle_payment_events-ReservedFor}
use eventflow_kafka_microser.Saga.Payments.{IsReadAs, Understood, process_payment-Understood}
use eventflow_kafka_microser.Kafka.Consume.Pipelines.{
  parse_payment_processed_message-accepted_iff, parse_payment_failed_message-accepted_iff,
  parse_payment_processed_message-skipped_iff,
}
use eventflow_kafka_microser.Kafka.Publisher.{KafkaEventTransport}
use eventflow_kafka_microser.Kafka.Publisher.Laws.{Transports}
use eventflow_kafka_microser.Kafka.Publisher.Reliable.{Reliable}
use eventflow_kafka_microser.Kafka.Consume.{
  parse_payment_processed_message, accepted, parse_payment_failed_message,
}
use eventflow_kafka_microser.Events.Types.{event_name, payment_failed, payment_processed}
use eventflow_kafka_microser.Payment.Order.{OrderCreated}
use eventflow_kafka_microser.Saga.Envelopes.{Generators}
use eventflow_kafka_microser.Events.Envelope.{is_text}
use eventflow_kafka_microser.Payment.Service.{outcome_row, process_payment}
use eventflow_kafka_microser.Kafka.Retry.Executor.{success}

module _ ⦃H : Host⦄ {Db : Type 0} (T : KafkaEventTransport Db) (L : Transports T) (Y : Reliable T)
    (headers : Fields) (w : World Db) where
  -- What stock-service answers from `w` to the outcome of a payment: a reservation for an approved
  -- payment, and nothing for a failed one.
  abbrev pub Passed : ProcessedEventOutcome → Value → Type 0
  Passed approved v =
      (w' : World Db) × (Stock.handle_payment_events T v headers w ≡ (ok (handled success), w'))
      × ReservedFor T L Y v w w'
  Passed skipped_duplicate_order v = ⊥
  Passed ProcessedEventOutcome.failed v =
      Stock.handle_payment_events T v headers w ≡ (ok (Ack.skipped (get "eventType" v)), w)

  reserved : (v : Value) → parse_payment_processed_message v ≡ ok (accepted v) → Passed approved v
  reserved v h =
      let (read, fine) = (parse_payment_processed_message-accepted_iff v v).0 h in
      let (object, (payment, ((id, e, b), rest))) = fine.payload in
      handle_payment_events-ReservedFor T L Y v v id headers w h object e (not_blank-not_empty id b)

  failed_type :
      (v : Value)
      → get "eventType" v ≡ str (event_name payment_failed)
      → get "eventType" v ≢ str (event_name payment_processed)
  unfolding event_name is_text
  failed_type v e f = let wrong : true ≡ false = ap (is_text "payment.failed") (sym e ∙ f) in cc

  -- A failed payment is skipped.
  pub passed_over :
      (v : Value)
      → parse_payment_failed_message v ≡ ok (accepted v)
      → Stock.handle_payment_events T v headers w ≡ (ok (Ack.skipped (get "eventType" v)), w)
  unfolding Stock.handle_payment_events
  passed_over v h =
      let (read, fine) = (parse_payment_failed_message-accepted_iff v v).0 h in
      ap (λ x. on_parsed T headers x w)
        ((parse_payment_processed_message-skipped_iff v _ _).1
          (v, read, failed_type v fine.envelope.event_type, refl, refl))

  IsReadAs-Passed : (o : ProcessedEventOutcome) (v : Value) → IsReadAs o v → Passed o v
  IsReadAs-Passed approved v h = reserved v h
  IsReadAs-Passed ProcessedEventOutcome.failed v h = passed_over v h
  IsReadAs-Passed skipped_duplicate_order v h = elim h [ ]

  module _ {Db' : Type 0} (T' : KafkaEventTransport Db') (L' : Transports T')
      (R : ProcessedEventRepository Db') where
    -- Two records were accepted, the row with the outcome was stored, and stock-service answers the
    -- second record as told.
    abbrev pub HandedOver : OrderCreated → World Db' → Unit {0} → World Db' → Type 0
    HandedOver event v a v' =
        (requested m : Message) × (o : ProcessedEventOutcome) × (n : ℕ) × (v'.sent
          ≡ v.sent ++ requested ∷ m ∷ [])
        × (v'.db ≡ R.save v.db (outcome_row T' R event (H.uuid n) o))
        × (m.key ≡ str event.payload.order_id)
        × Passed o m.value

    -- If `processPayment` returns for an order whose id is not blank, then stock-service, from any
    -- state of its own and with any headers, answers the second of the two records it published: where
    -- the stored row says approved, with success, for which it has published one `stock.reserved` for
    -- the order, caused by that record's event; and where it says failed, by skipping it and changing
    -- nothing. Both transports keep their interface, stock-service's publishes, and `randomUUID` and
    -- `toISOString` give texts of their documented formats.
    pub process_payment-HandedOver :
        (G : Generators H) (event : OrderCreated) (v : World Db')
        → not_blank event.payload.order_id ≡ true
        → OnOk (HandedOver event v) (process_payment T' R event v)
    process_payment-HandedOver G event v b =
        OnOk-map (Understood T' L' R event v) (HandedOver event v) _
          (λ a v' (q, m, o, n, s, t, k, r, i, d).
            (q, m, o, n, s, d, k, IsReadAs-Passed o m.value r))
          (process_payment-Understood T' L' R G event v b)
