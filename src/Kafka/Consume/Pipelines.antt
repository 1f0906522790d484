-- ===== src/Kafka/Consume/Pipelines.antt =====
-- The three consumer pipelines: what each accepts, skips and throws.
use eventflow_kafka_microser.Js.Errors.{ok}
use eventflow_kafka_microser.Js.Host.{Host}
use eventflow_kafka_microser.Kafka.Consume.{
  parse_order_events_message, parse_payment_processed_message, parse_payment_failed_message,
  accepted, skipped, deserialize_and_extract,
}
use eventflow_kafka_microser.Events.Envelope.{
  is_order_created_event, is_payment_processed_event, is_payment_failed_event,
}
use eventflow_kafka_microser.Js.Value.{Value, get, str}
use eventflow_kafka_microser.Prelude.{String, ◌≡◌, ◌↔◌, ◌≢◌}
use eventflow_kafka_microser.Kafka.Consume.Accepts.{
  ThrowsValidation, bind-ThrowsValidation, deserialize_and_extract-ThrowsValidation, IsAccepted,
  if-ThrowsValidation, validated-ThrowsValidation, pipeline-accepted_iff, is_event_type_iff,
  pipeline-skipped_iff, validate_order_created_payload-ThrowsValidation, ok-ThrowsValidation,
  validate_payment_processed_payload-ThrowsValidation,
  validate_payment_failed_payload-ThrowsValidation,
}
use eventflow_kafka_microser.Events.Types.{
  order_created, payment_processed, payment_failed, event_name,
}
use eventflow_kafka_microser.Events.Validate.{
  validate_order_created_payload, validate_payment_processed_payload,
  validate_payment_failed_payload, payment_processed_fields, payment_failed_fields,
}
use eventflow_kafka_microser.Events.Validate.Orders.{
  IsOrderCreated, validate_order_created_payload_iff,
}
use eventflow_kafka_microser.Events.Validate.Sound.{
  HasTexts, validate_payment_processed_payload_iff, validate_payment_failed_payload_iff,
}

module _ ⦃H : Host⦄ where
  -- The pipeline of `order.created` accepts a message exactly when an envelope can be read from it that
  -- is well formed and of that type, whose payload is well formed and whose correlation id is the
  -- payload's orderId; the envelope that goes on is the one that was read.
  pub parse_order_events_message-accepted_iff :
      (raw v : Value)
      → (parse_order_events_message raw ≡ ok (accepted v))
        ↔ ((deserialize_and_extract raw ≡ ok v) × IsAccepted order_created IsOrderCreated v)
  unfolding parse_order_events_message is_order_created_event
  parse_order_events_message-accepted_iff =
      pipeline-accepted_iff order_created validate_order_created_payload IsOrderCreated
        validate_order_created_payload_iff _ is_order_created_event
        (λ v. is_event_type_iff v order_created)

  -- `parseOrderEventsMessage` skips a message exactly when an envelope of another event type can be read from it, whatever
  -- else that envelope holds, and reports that type.
  pub parse_order_events_message-skipped_iff :
      (raw : Value) (reason : String) (x : Value)
      → (parse_order_events_message raw ≡ ok (skipped reason x)) ↔ (
          (u : Value) × (deserialize_and_extract raw ≡ ok u)
          × (get "eventType" u ≢ str (event_name order_created))
          × (reason ≡ "unsupported-event-type")
          × (x ≡ get "eventType" u))
  unfolding parse_order_events_message is_order_created_event
  parse_order_events_message-skipped_iff =
      pipeline-skipped_iff order_created validate_order_created_payload IsOrderCreated
        validate_order_created_payload_iff _ is_order_created_event
        (λ v. is_event_type_iff v order_created)

  -- Whatever the message, what `parseOrderEventsMessage` throws is an `EventValidationError`.
  pub parse_order_events_message-ThrowsValidation :
      (raw : Value) → ThrowsValidation (parse_order_events_message raw)
  unfolding parse_order_events_message
  parse_order_events_message-ThrowsValidation raw =
      bind-ThrowsValidation (deserialize_and_extract raw) _
        (deserialize_and_extract-ThrowsValidation raw)
        (λ v.
          if-ThrowsValidation (is_order_created_event v) _ _
            (validated-ThrowsValidation order_created validate_order_created_payload IsOrderCreated
              validate_order_created_payload_iff _ validate_order_created_payload-ThrowsValidation
              v)
            (ok-ThrowsValidation _))

  -- The pipeline of `payment.processed` accepts a message exactly when an envelope can be read from it that
  -- is well formed and of that type, whose payload is well formed and whose correlation id is the
  -- payload's orderId; the envelope that goes on is the one that was read.
  pub parse_payment_processed_message-accepted_iff :
      (raw v : Value)
      → (parse_payment_processed_message raw ≡ ok (accepted v)) ↔ (
          (deserialize_and_extract raw ≡ ok v)
          × IsAccepted payment_processed (HasTexts payment_processed_fields) v)
  unfolding parse_payment_processed_message is_payment_processed_event
  parse_payment_processed_message-accepted_iff =
      pipeline-accepted_iff payment_processed validate_payment_processed_payload
        (HasTexts payment_processed_fields) validate_payment_processed_payload_iff _
        is_payment_processed_event (λ v. is_event_type_iff v payment_processed)

  -- `parsePaymentProcessedMessage` skips a message exactly when an envelope of another event type can be read from it, whatever
  -- else that envelope holds, and reports that type.
  pub parse_payment_processed_message-skipped_iff :
      (raw : Value) (reason : String) (x : Value)
      → (parse_payment_processed_message raw ≡ ok (skipped reason x)) ↔ (
          (u : Value) × (deserialize_and_extract raw ≡ ok u)
          × (get "eventType" u ≢ str (event_name payment_processed))
          × (reason ≡ "unsupported-event-type")
          × (x ≡ get "eventType" u))
  unfolding parse_payment_processed_message is_payment_processed_event
  parse_payment_processed_message-skipped_iff =
      pipeline-skipped_iff payment_processed validate_payment_processed_payload
        (HasTexts payment_processed_fields) validate_payment_processed_payload_iff _
        is_payment_processed_event (λ v. is_event_type_iff v payment_processed)

  -- Whatever the message, what `parsePaymentProcessedMessage` throws is an `EventValidationError`.
  pub parse_payment_processed_message-ThrowsValidation :
      (raw : Value) → ThrowsValidation (parse_payment_processed_message raw)
  unfolding parse_payment_processed_message
  parse_payment_processed_message-ThrowsValidation raw =
      bind-ThrowsValidation (deserialize_and_extract raw) _
        (deserialize_and_extract-ThrowsValidation raw)
        (λ v.
          if-ThrowsValidation (is_payment_processed_event v) _ _
            (validated-ThrowsValidation payment_processed validate_payment_processed_payload
              (HasTexts payment_processed_fields) validate_payment_processed_payload_iff _
              validate_payment_processed_payload-ThrowsValidation v)
            (ok-ThrowsValidation _))

  -- The pipeline of `payment.failed` accepts a message exactly when an envelope can be read from it that
  -- is well formed and of that type, whose payload is well formed and whose correlation id is the
  -- payload's orderId; the envelope that goes on is the one that was read.
  pub parse_payment_failed_message-accepted_iff :
      (raw v : Value)
      → (parse_payment_failed_message raw ≡ ok (accepted v)) ↔ (
          (deserialize_and_extract raw ≡ ok v)
          × IsAccepted payment_failed (HasTexts payment_failed_fields) v)
  unfolding parse_payment_failed_message is_payment_failed_event
  parse_payment_failed_message-accepted_iff =
      pipeline-accepted_iff payment_failed validate_payment_failed_payload
        (HasTexts payment_failed_fields) validate_payment_failed_payload_iff _
        is_payment_failed_event (λ v. is_event_type_iff v payment_failed)

  -- `parsePaymentFailedMessage` skips a message exactly when an envelope of another event type can be read from it, whatever
  -- else that envelope holds, and reports that type.
  pub parse_payment_failed_message-skipped_iff :
      (raw : Value) (reason : String) (x : Value)
      → (parse_payment_failed_message raw ≡ ok (skipped reason x)) ↔ (
          (u : Value) × (deserialize_and_extract raw ≡ ok u)
          × (get "eventType" u ≢ str (event_name payment_failed))
          × (reason ≡ "unsupported-event-type")
          × (x ≡ get "eventType" u))
  unfolding parse_payment_failed_message is_payment_failed_event
  parse_payment_failed_message-skipped_iff =
      pipeline-skipped_iff payment_failed validate_payment_failed_payload
        (HasTexts payment_failed_fields) validate_payment_failed_payload_iff _
        is_payment_failed_event (λ v. is_event_type_iff v payment_failed)

  -- Whatever the message, what `parsePaymentFailedMessage` throws is an `EventValidationError`.
  pub parse_payment_failed_message-ThrowsValidation :
      (raw : Value) → ThrowsValidation (parse_payment_failed_message raw)
  unfolding parse_payment_failed_message
  parse_payment_failed_message-ThrowsValidation raw =
      bind-ThrowsValidation (deserialize_and_extract raw) _
        (deserialize_and_extract-ThrowsValidation raw)
        (λ v.
          if-ThrowsValidation (is_payment_failed_event v) _ _
            (validated-ThrowsValidation payment_failed validate_payment_failed_payload
              (HasTexts payment_failed_fields) validate_payment_failed_payload_iff _
              validate_payment_failed_payload-ThrowsValidation v)
            (ok-ThrowsValidation _))
