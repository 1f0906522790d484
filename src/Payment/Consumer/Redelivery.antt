-- ===== src/Payment/Consumer/Redelivery.antt =====
-- Messages that Kafka delivers again, and second events of an order that is paid.
use eventflow_kafka_microser.Prelude.{◌≡◌, refl, sym, subst, some}
use eventflow_kafka_microser.Js.Io.{World, ◌>>=◌}
use eventflow_kafka_microser.Js.Io.Laws.{OnOk, >>=-OnOk, OnOk-ok}
use eventflow_kafka_microser.Js.Host.{Host}
use eventflow_kafka_microser.Js.Errors.{Result, ok, err, validation}
use eventflow_kafka_microser.Js.Value.{Value, Fields}
use eventflow_kafka_microser.Kafka.Publisher.Laws.{Transports}
use eventflow_kafka_microser.Kafka.Retry.Executor.{RetryOutcome, success, retry, dlq}
use eventflow_kafka_microser.Kafka.Retry.Executor.Forwards.{Ends, execute-Forwarded}
use eventflow_kafka_microser.Payment.Consumer.{
  run, on_parsed, Ack, duplicate, handled, accept_order, handle_order_events, dispatch,
}
use eventflow_kafka_microser.Payment.Service.Laws.{process_payment-Processed, Processed}
use eventflow_kafka_microser.Payment.Idempotency.{
  ProcessedEventRepository, ProcessedEvent, check_order_created, IdempotencyCheckResult,
  record_processed,
}
use eventflow_kafka_microser.Kafka.Publisher.{KafkaEventTransport}
use eventflow_kafka_microser.Payment.Order.{OrderCreated, as_order_created}
use eventflow_kafka_microser.Kafka.Consume.{Parsed, parse_order_events_message, accepted}
use eventflow_kafka_microser.Payment.Service.{handle_order_created, outcome_row}
use eventflow_kafka_microser.Events.Types.{order_created}
use eventflow_kafka_microser.Kafka.Retry.{resolve_consumer_retry_policy, no_overrides}
use eventflow_kafka_microser.Kafka.Wire.{parse_kafka_headers}
use eventflow_kafka_microser.Events.Catalog.{payment_service}
use eventflow_kafka_microser.Payment.Idempotency.{check}

-- A row that was saved is found by its primary key.
abbrev pub FindsSaved : {Db : Type 0} → ProcessedEventRepository Db → Type 0
FindsSaved {Db} R =
    (db : Db) (row : ProcessedEvent)
    → R.find_by_event (R.save db row) row.inbound_event_id ≡ some row

module _ ⦃H : Host⦄ {Db : Type 0} (T : KafkaEventTransport Db)
    (R : ProcessedEventRepository Db) where
  -- An `order.created` event that has a row is acknowledged as a duplicate: nothing is published,
  -- stored, slept or drawn, whatever the order.
  pub accept_order-duplicate :
      (event : OrderCreated) (headers : Fields) (r : ProcessedEvent) (w : World Db)
      → R.find_by_event w.db event.event_id ≡ some r
      → accept_order T R event headers w ≡ (ok duplicate, w)
  unfolding ◌>>=◌ accept_order check_order_created check
  accept_order-duplicate event headers r w e = rw e refl

  module _ (L : Transports T) (F : FindsSaved R) (event : OrderCreated) where
    -- If the answer is a success, then the event has a row.
    abbrev HasRow : Ack → World Db → Type 0
    HasRow a w =
        a ≡ handled success → (r : ProcessedEvent) × (R.find_by_event w.db event.event_id ≡ some r)

    process_payment-row :
        (w : World Db) (a : Unit {0}) (w' : World Db)
        → Processed T L R event w a w'
        → (r : ProcessedEvent) × (R.find_by_event w'.db event.event_id ≡ some r)
    process_payment-row w a w' (n, k, q, u, e, m, (o, d, g, x, tells, st, db)) = (
      _,
      subst (λ b. R.find_by_event b event.event_id ≡ some (outcome_row T R event (H.uuid n) o))
          (sym db) (F u.db (outcome_row T R event (H.uuid n) o)),
    )

    outcome-HasRow :
        (headers : Fields) (o : RetryOutcome) (w w' : World Db)
        → Ends order_created event.envelope headers
            (resolve_consumer_retry_policy no_overrides)
            (handle_order_created T R event)
            w
            o
            w'
        → HasRow (handled o) w'
    unfolding handle_order_created
    outcome-HasRow headers success w w' (v, s, d, h) e =
        process_payment-row v tt w'
          (OnOk-ok (Processed T L R event v) _ (process_payment-Processed T L R event v) h)
    outcome-HasRow headers retry w w' k e = cc
    outcome-HasRow headers dlq w w' k e = cc

    dispatch-HasRow :
        (headers : Fields) (c : IdempotencyCheckResult) (w : World Db)
        → OnOk HasRow (dispatch T R event headers c w)
    unfolding run
    dispatch-HasRow headers (IdempotencyCheckResult.duplicate_event r) w = λ e. cc
    dispatch-HasRow headers (IdempotencyCheckResult.duplicate_order r) w =
        >>=-OnOk HasRow (record_processed R _) _ w (λ a v h e. cc)
    dispatch-HasRow headers IdempotencyCheckResult.new w =
        >>=-OnOk HasRow
          (run T R order_created event.envelope headers (handle_order_created T R event)) _ w
          (λ o v h. outcome-HasRow headers o w v (
            OnOk-ok (Ends _ _ headers _ _ w) _
              (execute-Forwarded T L payment_service _ order_created event.envelope headers _ w) h))

    accept_order-HasRow :
        (headers : Fields) (w : World Db) → OnOk HasRow (accept_order T R event headers w)
    unfolding ◌>>=◌ accept_order check_order_created
    accept_order-HasRow headers w = dispatch-HasRow headers _ w

    accept_order-redelivered :
        (headers headers' : Fields) (w w' : World Db)
        → accept_order T R event headers w ≡ (ok (handled success), w')
        → accept_order T R event headers' w' ≡ (ok duplicate, w')
    accept_order-redelivered headers headers' w w' h =
        let (r, e) = OnOk-ok HasRow _ (accept_order-HasRow headers w) h refl in
        accept_order-duplicate event headers' r w' e

  on_parsed-redelivered :
      (L : Transports T) (F : FindsSaved R) (headers headers' : Fields) (p : Result Parsed)
      (w w' : World Db)
      → on_parsed T R headers p w ≡ (ok (handled success), w')
      → on_parsed T R headers' p w' ≡ (ok duplicate, w')
  on_parsed-redelivered L F h h' (ok (accepted v)) w w' e =
      accept_order-redelivered L F (as_order_created v) (parse_kafka_headers h)
        (parse_kafka_headers h') w w' e
  on_parsed-redelivered L F h h' (ok (Parsed.skipped r t)) w w' e = cc
  on_parsed-redelivered L F h h' (err (validation m ds)) w w' e = cc
  on_parsed-redelivered L F h h' (err x) w w' e = cc

  -- Once a message of `order.events` was handled with success, its delivery again, with any headers, is
  -- acknowledged as a duplicate and changes nothing: no second payment is requested. The transport
  -- keeps its interface, and the table finds a row that was saved by its primary key.
  pub handle_order_events-redelivered :
      (L : Transports T) (F : FindsSaved R) (raw : Value) (headers headers' : Fields)
      (w w' : World Db)
      → handle_order_events T R raw headers w ≡ (ok (handled success), w')
      → handle_order_events T R raw headers' w' ≡ (ok duplicate, w')
  unfolding handle_order_events
  handle_order_events-redelivered L F raw h h' w w' e =
      on_parsed-redelivered L F h h' (parse_order_events_message raw) w w' e
