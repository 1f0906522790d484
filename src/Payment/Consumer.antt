-- ===== src/Payment/Consumer.antt =====
-- services/payment-service/src/kafka/payment-events.consumer.ts and kafka-retry.runner.ts
pub mod Handled
pub mod Redelivery
use eventflow_kafka_microser.Js.Io.{◌>>=◌, ◌>>◌, lift, Io, pure, throw}
use eventflow_kafka_microser.Prelude.{List, String}
use eventflow_kafka_microser.Js.Host.{Host, read}
use eventflow_kafka_microser.Kafka.Publisher.{KafkaEventTransport}
use eventflow_kafka_microser.Kafka.Retry.Executor.{RetryOutcome, execute}
use eventflow_kafka_microser.Payment.Idempotency.{
  ProcessedEventRepository, ProcessedEvent, IdempotencyCheckResult, check_order_created,
  skipped_duplicate_order, record_processed,
}
use eventflow_kafka_microser.Events.Types.{EventType, order_created, order_cancelled}
use eventflow_kafka_microser.Payment.Order.{OrderCreated, as_order_created}
use eventflow_kafka_microser.Js.Value.{Fields, Value, get}
use eventflow_kafka_microser.Js.Errors.{Result, ok, err, validation}
use eventflow_kafka_microser.Kafka.Consume.{
  Parsed, parse_order_events_message, extract_envelope, accepted,
}
use eventflow_kafka_microser.Events.Catalog.{payment_service}
use eventflow_kafka_microser.Kafka.Retry.{resolve_consumer_retry_policy, no_overrides}
use eventflow_kafka_microser.Payment.Service.{handle_order_created, handle_order_cancelled}
use eventflow_kafka_microser.Kafka.Wire.{parse_kafka_headers}

-- What a handler answers: the message is acknowledged, with the reason.
pub data Ack : Type 0 where
  invalid : List String → Ack
  skipped : String → Ack
  duplicate : Ack
  duplicate_order : Ack
  handled : RetryOutcome → Ack

module _ ⦃H : Host⦄ {Db : Type 0} (publisher : KafkaEventTransport Db)
    (repository : ProcessedEventRepository Db) where
  -- `KafkaRetryRunner.execute`
  unfoldable pub run : EventType → Value → Fields → Io Db (Unit {0}) → Io Db RetryOutcome
  run event_type envelope headers handler =
      execute publisher payment_service (resolve_consumer_retry_policy no_overrides) event_type
        envelope headers handler

  abbrev pub skip_row : OrderCreated → ProcessedEvent → ProcessedEvent
  skip_row event r = record {
    inbound_event_id = event.event_id;
    event_type = order_created;
    order_id = event.payload.order_id;
    payment_id = r.payment_id;
    outcome = skipped_duplicate_order;
  }

  -- The branches behind the idempotency check.
  abbrev pub dispatch : OrderCreated → Fields → IdempotencyCheckResult → Io Db Ack
  dispatch event headers (IdempotencyCheckResult.duplicate_event r) = pure duplicate
  dispatch event headers (IdempotencyCheckResult.duplicate_order r) = do
    record_processed repository (skip_row event r)
    pure duplicate_order
  dispatch event headers IdempotencyCheckResult.new = do
    outcome ←
        run order_created event.envelope headers (handle_order_created publisher repository event)
    pure (handled outcome)

  unfoldable pub accept_order : OrderCreated → Fields → Io Db Ack
  accept_order event headers = do
    found ← check_order_created repository event.event_id event.payload.order_id
    dispatch event headers found

  -- The branches behind the parser; `headers` are those of the Kafka message.
  abbrev pub on_parsed : Fields → Result Parsed → Io Db Ack
  on_parsed headers (ok (accepted envelope)) =
      accept_order (as_order_created envelope) (parse_kafka_headers headers)
  on_parsed headers (ok (Parsed.skipped reason event_type)) = pure (skipped reason)
  on_parsed headers (err (validation message details)) = pure (invalid details)
  on_parsed headers (err e) = throw e

  unfoldable pub handle_order_events : Value → Fields → Io Db Ack
  handle_order_events payload headers = on_parsed headers (parse_order_events_message payload)

  unfoldable pub handle_order_cancelled_event : Value → Fields → Io Db Ack
  handle_order_cancelled_event payload headers = do
    envelope ← lift (extract_envelope payload)
    _ ← lift (read "orderId" (get "payload" envelope))
    outcome ←
        run order_cancelled envelope (parse_kafka_headers headers)
          (handle_order_cancelled publisher repository envelope)
    pure (handled outcome)
