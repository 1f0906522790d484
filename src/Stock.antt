-- ===== src/Stock.antt =====
-- services/stock-service/src: stock/stock.service.ts, kafka/stock-events.consumer.ts and
-- kafka/kafka-retry.runner.ts.
pub mod Laws
pub mod Total
use eventflow_kafka_microser.Js.Io.{◌>>=◌, Io, lift, pure, throw}
use eventflow_kafka_microser.Js.Value.{Value, Fields, get, obj, field, arr, end, nil}
use eventflow_kafka_microser.Js.Host.{Host, read}
use eventflow_kafka_microser.Kafka.Retry.Executor.{RetryOutcome, execute}
use eventflow_kafka_microser.Kafka.Publisher.{KafkaEventTransport}
use eventflow_kafka_microser.Events.Types.{
  EventType, order_cancelled, payment_processed, stock_reserved, stock_released,
}
use eventflow_kafka_microser.Js.Errors.{Result, ok, err, validation}
use eventflow_kafka_microser.Kafka.Consume.{
  parse_payment_processed_message, Parsed, extract_envelope, accepted,
}
use eventflow_kafka_microser.Events.Catalog.{stock_service}
use eventflow_kafka_microser.Kafka.Retry.{resolve_consumer_retry_policy, no_overrides}
use eventflow_kafka_microser.Events.Envelope.{
  random_uuid, iso_now, create_event_envelope, event_params,
}
use eventflow_kafka_microser.Kafka.Wire.{parse_kafka_headers}

pub data Ack : Type 0 where
  invalid : Ack
  skipped : Value → Ack
  handled : RetryOutcome → Ack

module _ ⦃H : Host⦄ {Db : Type 0} (publisher : KafkaEventTransport Db) where
  unfoldable pub handle_payment_processed : Value → Io Db (Unit {0})
  handle_payment_processed event = do
    order_id ← lift (read "orderId" (get "payload" event))
    reservation_id ← random_uuid
    reserved_at ← iso_now
    reserved ← create_event_envelope (
        event_params stock_reserved "stock-service" order_id (get "eventId" event) (
          obj (
            field "reservationId" reservation_id (
              field "orderId" order_id
                (field "items" (arr nil) (field "reservedAt" reserved_at end))))))
    publisher.publish stock_reserved reserved end

  unfoldable pub handle_order_cancelled : Value → Io Db (Unit {0})
  handle_order_cancelled event = do
    order_id ← lift (read "orderId" (get "payload" event))
    reservation_id ← random_uuid
    released_at ← iso_now
    released ← create_event_envelope (
        event_params stock_released "stock-service" order_id (get "eventId" event) (
          obj (
            field "reservationId" reservation_id (
              field "orderId" order_id (
                field "reason" (get "reason" (get "payload" event))
                  (field "releasedAt" released_at end))))))
    publisher.publish stock_released released end

  unfoldable pub run : EventType → Value → Fields → Io Db (Unit {0}) → Io Db RetryOutcome
  run event_type envelope headers handler =
      execute publisher stock_service (resolve_consumer_retry_policy no_overrides) event_type
        envelope headers handler

  abbrev pub on_parsed : Fields → Result Parsed → Io Db Ack
  on_parsed headers (ok (accepted envelope)) = do
    outcome ←
        run payment_processed envelope (parse_kafka_headers headers)
          (handle_payment_processed envelope)
    pure (handled outcome)
  on_parsed headers (ok (Parsed.skipped reason event_type)) = pure (skipped event_type)
  on_parsed headers (err (validation message details)) = pure invalid
  on_parsed headers (err e) = throw e

  unfoldable pub handle_payment_events : Value → Fields → Io Db Ack
  handle_payment_events payload headers =
      on_parsed headers (parse_payment_processed_message payload)

  unfoldable pub handle_order_cancelled_event : Value → Fields → Io Db Ack
  handle_order_cancelled_event payload headers = do
    envelope ← lift (extract_envelope payload)
    outcome ←
        run order_cancelled envelope (parse_kafka_headers headers) (handle_order_cancelled envelope)
    pure (handled outcome)
