-- ===== src/Notification.antt =====
-- services/notification-service/src: notification/notification.service.ts,
-- kafka/notification-events.consumer.ts and kafka/kafka-retry.runner.ts.
pub mod Laws
pub mod Total
use eventflow_kafka_microser.Js.Io.{◌>>=◌, ◌>>◌, Io, lift, pure, throw}
use eventflow_kafka_microser.Js.Value.{Value, Fields, get, obj, field, str, end}
use eventflow_kafka_microser.Js.Host.{Host, read}
use eventflow_kafka_microser.Kafka.Retry.Executor.{RetryOutcome, execute}
use eventflow_kafka_microser.Kafka.Publisher.{KafkaEventTransport}
use eventflow_kafka_microser.Events.Types.{
  EventType, stock_reserved, order_cancelled, payment_failed, notification_send, notification_sent,
}
use eventflow_kafka_microser.Js.Errors.{Result, ok, err, validation}
use eventflow_kafka_microser.Kafka.Consume.{
  parse_payment_failed_message, Parsed, extract_envelope, accepted,
}
use eventflow_kafka_microser.Events.Catalog.{notification_service}
use eventflow_kafka_microser.Kafka.Retry.{resolve_consumer_retry_policy, no_overrides}
use eventflow_kafka_microser.Events.Envelope.{
  random_uuid, create_event_envelope, event_params, iso_now,
}
use eventflow_kafka_microser.Kafka.Wire.{parse_kafka_headers}

pub data Ack : Type 0 where
  invalid : Ack
  skipped : Value → Ack
  handled : RetryOutcome → Ack

module _ ⦃H : Host⦄ {Db : Type 0} (publisher : KafkaEventTransport Db) where
  unfoldable pub handle_stock_reserved : Value → Io Db (Unit {0})
  handle_stock_reserved event = do
    order_id ← lift (read "orderId" (get "payload" event))
    notification_id ← random_uuid
    send ← create_event_envelope (
        event_params notification_send "notification-service" order_id (get "eventId" event) (
          obj (
            field "notificationId" notification_id (
              field "orderId" order_id (
                field "channel" (str "email") (
                  field "recipient" (str "customer@example.com")
                    (field "template" (str "order-completed") end)))))))
    publisher.publish notification_send send end
    sent_at ← iso_now
    sent ← create_event_envelope (
        event_params notification_sent "notification-service" order_id (get "eventId" send) (
          obj (
            field "notificationId" notification_id (
              field "orderId" order_id
                (field "channel" (str "email") (field "sentAt" sent_at end))))))
    publisher.publish notification_sent sent end

  -- These two only log the order's id.
  unfoldable pub handle_payment_failed : Value → Io Db (Unit {0})
  handle_payment_failed event = do _ ← lift (read "orderId" (get "payload" event)); pure tt

  unfoldable pub handle_order_cancelled : Value → Io Db (Unit {0})
  handle_order_cancelled event = do _ ← lift (read "orderId" (get "payload" event)); pure tt

  unfoldable pub run : EventType → Value → Fields → Io Db (Unit {0}) → Io Db RetryOutcome
  run event_type envelope headers handler =
      execute publisher notification_service (resolve_consumer_retry_policy no_overrides) event_type
        envelope headers handler

  abbrev pub on_parsed : Fields → Result Parsed → Io Db Ack
  on_parsed headers (ok (accepted envelope)) = do
    outcome ←
        run payment_failed envelope (parse_kafka_headers headers) (handle_payment_failed envelope)
    pure (handled outcome)
  on_parsed headers (ok (Parsed.skipped reason event_type)) = pure (skipped event_type)
  on_parsed headers (err (validation message details)) = pure invalid
  on_parsed headers (err e) = throw e

  unfoldable pub handle_payment_events : Value → Fields → Io Db Ack
  handle_payment_events payload headers = on_parsed headers (parse_payment_failed_message payload)

  unfoldable pub handle_stock_reserved_event : Value → Fields → Io Db Ack
  handle_stock_reserved_event payload headers = do
    envelope ← lift (extract_envelope payload)
    outcome ←
        run stock_reserved envelope (parse_kafka_headers headers)
          (do _ ← lift (read "orderId" (get "payload" envelope)); handle_stock_reserved envelope)
    pure (handled outcome)

  unfoldable pub handle_order_cancelled_event : Value → Fields → Io Db Ack
  handle_order_cancelled_event payload headers = do
    envelope ← lift (extract_envelope payload)
    outcome ←
        run order_cancelled envelope (parse_kafka_headers headers) (handle_order_cancelled envelope)
    pure (handled outcome)
