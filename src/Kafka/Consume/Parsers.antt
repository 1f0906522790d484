-- ===== src/Kafka/Consume/Parsers.antt =====
-- The three pipelines side by side.
use eventflow_kafka_microser.Prelude.{◌≡◌, refl, ◌≢◌, ◌↔◌, true, String}
use eventflow_kafka_microser.Js.Errors.{Result, ok, err, is_validation}
use eventflow_kafka_microser.Kafka.Consume.Accepts.{ThrowsValidation, IsAccepted}
use eventflow_kafka_microser.Js.Host.{Host}
use eventflow_kafka_microser.Js.Value.{Value, get, str}
use eventflow_kafka_microser.Events.Types.{
  EventType, order_created, payment_processed, event_name, payment_failed,
}
use eventflow_kafka_microser.Kafka.Consume.{
  parse_payment_processed_message, parse_order_events_message, accepted, deserialize_and_extract,
  parse_payment_failed_message,
}
use eventflow_kafka_microser.Kafka.Consume.{skipped}
use eventflow_kafka_microser.Kafka.Consume.Pipelines.{
  parse_order_events_message-ThrowsValidation, parse_payment_processed_message-ThrowsValidation,
  parse_payment_failed_message-ThrowsValidation, parse_order_events_message-skipped_iff,
  parse_payment_processed_message-skipped_iff, parse_payment_processed_message-accepted_iff,
  parse_payment_failed_message-skipped_iff, parse_payment_failed_message-accepted_iff,
}
use eventflow_kafka_microser.Events.Validate.Sound.{HasTexts}
use eventflow_kafka_microser.Events.Validate.{payment_processed_fields, payment_failed_fields}

-- What was thrown, if anything, is an `EventValidationError`.
abbrev pub Rejects : {A : Type 0} → Result A → Type 0
Rejects (ok a) = Unit
Rejects (err e) = is_validation e ≡ true

ThrowsValidation-Rejects : {A : Type 0} (r : Result A) → ThrowsValidation r → Rejects r
ThrowsValidation-Rejects (ok a) h = tt
ThrowsValidation-Rejects (err e) h = h e refl

module _ ⦃H : Host⦄ where
  -- The pipelines of the two outcomes of a payment: a message is accepted exactly when an envelope can
  -- be read from it that is well formed and of the pipeline's event type, whose payload holds the texts
  -- that this event requires, none of them blank, and whose correlation id is the payload's orderId;
  -- the envelope that goes on is the one that was read.
  pub payment_messages-accepted_iff :
      (raw v : Value)
      → ((parse_payment_processed_message raw ≡ ok (accepted v)) ↔ (
          (deserialize_and_extract raw ≡ ok v)
          × IsAccepted payment_processed (HasTexts payment_processed_fields) v))
        × ((parse_payment_failed_message raw ≡ ok (accepted v)) ↔ (
            (deserialize_and_extract raw ≡ ok v)
            × IsAccepted payment_failed (HasTexts payment_failed_fields) v))
  payment_messages-accepted_iff raw v = (
    parse_payment_processed_message-accepted_iff raw v,
    parse_payment_failed_message-accepted_iff raw v,
  )

  -- An envelope can be read whose event type is another than the given one, and that type is reported.
  abbrev pub IsOther : EventType → Value → String → Value → Type 0
  IsOther t raw reason x =
      (u : Value) × (deserialize_and_extract raw ≡ ok u)
      × (get "eventType" u ≢ str (event_name t))
      × (reason ≡ "unsupported-event-type")
      × (x ≡ get "eventType" u)

  -- Each of the three pipelines skips a message exactly when an envelope can be read from it whose
  -- event type is not the pipeline's own, whatever else that envelope holds, and reports that type.
  pub parsers-skipped_iff :
      (raw : Value) (reason : String) (x : Value)
      → ((parse_order_events_message raw ≡ ok (skipped reason x))
          ↔ IsOther order_created raw reason x)
        × ((parse_payment_processed_message raw ≡ ok (skipped reason x))
            ↔ IsOther payment_processed raw reason x)
        × ((parse_payment_failed_message raw ≡ ok (skipped reason x))
            ↔ IsOther payment_failed raw reason x)
  parsers-skipped_iff raw reason x = (
    parse_order_events_message-skipped_iff raw reason x,
    parse_payment_processed_message-skipped_iff raw reason x,
    parse_payment_failed_message-skipped_iff raw reason x,
  )

  -- Whatever the message, what one of the three pipelines throws is an `EventValidationError`.
  pub parsers-Rejects :
      (raw : Value)
      → Rejects (parse_order_events_message raw)
        × Rejects (parse_payment_processed_message raw)
        × Rejects (parse_payment_failed_message raw)
  parsers-Rejects raw = (
    ThrowsValidation-Rejects _ (parse_order_events_message-ThrowsValidation raw),
    ThrowsValidation-Rejects _ (parse_payment_processed_message-ThrowsValidation raw),
    ThrowsValidation-Rejects _ (parse_payment_failed_message-ThrowsValidation raw),
  )
