-- ===== src/Orders/Consumer.antt =====
-- services/order-service/src/kafka/order-events.consumer.ts and kafka-retry.runner.ts
pub mod Laws
pub mod Total
use eventflow_kafka_microser.Js.Io.{◌>>=◌, ◌>>◌, Io, lift, pure, throw}
use eventflow_kafka_microser.Js.Value.{Value, str, Fields, get}
use eventflow_kafka_microser.Js.Host.{Host, read}
use eventflow_kafka_microser.Kafka.Retry.Executor.{RetryOutcome, execute}
use eventflow_kafka_microser.Prelude.{String}
use eventflow_kafka_microser.Kafka.Publisher.{KafkaEventTransport}
use eventflow_kafka_microser.Orders.Service.{
  OrderRepository, OrderStatus, cancelled, completed, update_order_status,
}
use eventflow_kafka_microser.Events.Types.{
  EventType, stock_released, stock_failed, notification_sent, payment_failed,
}
use eventflow_kafka_microser.Js.Errors.{Result, ok, err, validation}
use eventflow_kafka_microser.Kafka.Consume.{
  Parsed, parse_payment_failed_message, extract_envelope, accepted,
}
use eventflow_kafka_microser.Events.Catalog.{order_service}
use eventflow_kafka_microser.Kafka.Retry.{resolve_consumer_retry_policy, no_overrides}
use eventflow_kafka_microser.Kafka.Wire.{parse_kafka_headers}

-- What a handler answers.
pub data Ack : Type 0 where
  invalid : Ack
  skipped : Value → Ack
  handled : RetryOutcome → Ack

-- The parameter of the query: an id that is no string is compared by its text.
unfoldable pub id_text : ⦃H : Host⦄ → Value → String
id_text ⦃H⦄ (str s) = s
id_text ⦃H⦄ v = H.show v

module _ ⦃H : Host⦄ {Db : Type 0} (publisher : KafkaEventTransport Db)
    (repository : OrderRepository Db) where
  -- `KafkaRetryRunner.execute`
  unfoldable pub run : EventType → Value → Fields → Io Db (Unit {0}) → Io Db RetryOutcome
  run event_type envelope headers handler =
      execute publisher order_service (resolve_consumer_retry_policy no_overrides) event_type
        envelope headers handler

  -- A handler's work: the status of the order of the payload is set, then `reason` or `channel` is
  -- read for the log.
  unfoldable pub project : OrderStatus → String → Value → Io Db (Unit {0})
  project status logged envelope = do
    order_id ← lift (read "orderId" (get "payload" envelope))
    update_order_status publisher repository (id_text order_id) status
    _ ← lift (read logged (get "payload" envelope))
    pure tt

  abbrev pub on_parsed : Fields → Result Parsed → Io Db Ack
  on_parsed headers (ok (accepted envelope)) = do
    outcome ←
        run payment_failed envelope (parse_kafka_headers headers)
          (project OrderStatus.failed "reason" envelope)
    pure (handled outcome)
  on_parsed headers (ok (Parsed.skipped reason event_type)) = pure (skipped event_type)
  on_parsed headers (err (validation message details)) = pure invalid
  on_parsed headers (err e) = throw e

  unfoldable pub handle_payment_events : Value → Fields → Io Db Ack
  handle_payment_events payload headers = on_parsed headers (parse_payment_failed_message payload)

  -- The three handlers that read the envelope and validate nothing.
  unfoldable pub projected : EventType → OrderStatus → String → Value → Fields → Io Db Ack
  projected event_type status logged payload headers = do
    envelope ← lift (extract_envelope payload)
    outcome ← run event_type envelope (parse_kafka_headers headers) (project status logged envelope)
    pure (handled outcome)

  unfoldable pub handle_stock_released : Value → Fields → Io Db Ack
  handle_stock_released = projected stock_released cancelled "reason"

  unfoldable pub handle_stock_failed : Value → Fields → Io Db Ack
  handle_stock_failed = projected stock_failed OrderStatus.failed "reason"

  unfoldable pub handle_notification_sent : Value → Fields → Io Db Ack
  handle_notification_sent = projected notification_sent completed "channel"
