-- ===== src/Examples/Parsers.antt =====
-- The three consumer pipelines at concrete messages.
use eventflow_kafka_microser.Prelude.{◌≡◌, ◌↔◌}
use eventflow_kafka_microser.Js.Errors.{ok, Result}
use eventflow_kafka_microser.Js.Value.{Value, str, get}
use eventflow_kafka_microser.Events.Types.{
  order_created, payment_processed, payment_failed, EventType,
}
use eventflow_kafka_microser.Kafka.Consume.{
  parse_order_events_message, parse_payment_processed_message, parse_payment_failed_message,
  accepted, Parsed, deserialize_and_extract,
}
use eventflow_kafka_microser.Kafka.Consume.Accepts.{IsAccepted}
use eventflow_kafka_microser.Kafka.Consume.Pipelines.{parse_order_events_message-accepted_iff}
use eventflow_kafka_microser.Events.Validate.Orders.{IsOrderCreated}
use eventflow_kafka_microser.Events.Validate.Sound.{HasTexts}
use eventflow_kafka_microser.Events.Validate.{payment_processed_fields, payment_failed_fields}
use eventflow_kafka_microser.Examples.Messages.{order_message, calm, processed_message}
use eventflow_kafka_microser.Kafka.Consume.Parsers.{
  payment_messages-accepted_iff, parsers-skipped_iff, Rejects, parsers-Rejects, IsOther,
}

parse_order_events_message-accepted_iff_example :
    (parse_order_events_message ⦃H = calm⦄ order_message ≡ ok (accepted order_message)) ↔ (
      (deserialize_and_extract ⦃H = calm⦄ order_message ≡ ok order_message)
      × IsAccepted order_created (IsOrderCreated ⦃H = calm⦄) order_message)
parse_order_events_message-accepted_iff_example =
    parse_order_events_message-accepted_iff ⦃H = calm⦄ order_message order_message

payment_messages-accepted_iff_example :
    ((parse_payment_processed_message ⦃H = calm⦄ processed_message
        ≡ ok (accepted processed_message))
      ↔ ((deserialize_and_extract ⦃H = calm⦄ processed_message ≡ ok processed_message)
          × IsAccepted payment_processed (HasTexts payment_processed_fields) processed_message))
    × ((parse_payment_failed_message ⦃H = calm⦄ processed_message ≡ ok (accepted processed_message))
        ↔ ((deserialize_and_extract ⦃H = calm⦄ processed_message ≡ ok processed_message)
            × IsAccepted payment_failed (HasTexts payment_failed_fields) processed_message))
payment_messages-accepted_iff_example =
    payment_messages-accepted_iff ⦃H = calm⦄ processed_message processed_message

abbrev Skips : (Value → Result Parsed) → EventType → Type 0
Skips parse t =
    (parse processed_message
      ≡ ok (Parsed.skipped "unsupported-event-type" (get "eventType" processed_message)))
    ↔ IsOther ⦃H = calm⦄ t processed_message "unsupported-event-type"
        (get "eventType" processed_message)

parsers-skipped_iff_example :
    Skips (parse_order_events_message ⦃H = calm⦄) order_created
    × Skips (parse_payment_processed_message ⦃H = calm⦄) payment_processed
    × Skips (parse_payment_failed_message ⦃H = calm⦄) payment_failed
parsers-skipped_iff_example =
    parsers-skipped_iff ⦃H = calm⦄ processed_message "unsupported-event-type"
      (get "eventType" processed_message)

parsers-Rejects_example :
    Rejects (parse_order_events_message ⦃H = calm⦄ (str ""))
    × Rejects (parse_payment_processed_message ⦃H = calm⦄ (str ""))
    × Rejects (parse_payment_failed_message ⦃H = calm⦄ (str ""))
parsers-Rejects_example = parsers-Rejects ⦃H = calm⦄ (str "")
