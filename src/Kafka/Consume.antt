-- ===== src/Kafka/Consume.antt =====
-- The consumer pipelines: shared/src/kafka/deserialize-kafka-payload.ts, `extractEnvelope` of
-- envelope-kafka.ts, consume-order-events.ts and consume-payment-events.ts.
pub mod Accepts
pub mod Parsers
pub mod Pipelines
use eventflow_kafka_microser.Js.Errors.{◌>>=◌, ◌>>◌, map_error}
use eventflow_kafka_microser.Js.Value.{undefined, null}
use eventflow_kafka_microser.Prelude.{String, Bool, if◌then◌else◌, false, ◌∷◌, [], ◌==◌, some}
use eventflow_kafka_microser.Js.Value.{Value, obj, has, get, buffer, str}
use eventflow_kafka_microser.Js.Host.{Host, error_message}
use eventflow_kafka_microser.Js.Errors.{Result, Thrown, err, validation, ok, error}
use eventflow_kafka_microser.Events.Types.{
  EventType, order_created, payment_processed, payment_failed,
}
use eventflow_kafka_microser.Js.Text.{is_empty, trim}
use eventflow_kafka_microser.Events.Validate.{
  validate_event_envelope, validate_order_created_payload, validate_payment_processed_payload,
  validate_payment_failed_payload,
}
use eventflow_kafka_microser.Events.Envelope.{
  is_order_created_event, is_payment_processed_event, is_payment_failed_event,
}

-- `k in v`, for a value of which `typeof` is 'object' and which is not null
abbrev pub has_prop : String → Value → Bool
has_prop k (obj fs) = has k fs
has_prop k _ = false

pub data Parsed : Type 0 where
  accepted : Value → Parsed
  skipped : String → Value → Parsed

-- `a !== b` is false: the fields compared are strings, which the validators have checked.
unfoldable pub same_text : Value → Value → Bool
same_text (str a) (str b) = a == b
same_text _ _ = false

module _ ⦃H : Host⦄ where
  abbrev pub parse_text : String → String → Result Value
  parse_text text message = if is_empty text then err (error "Error" message) else H.parse_json text

  unfoldable pub deserialize_kafka_payload : Value → Result Value
  deserialize_kafka_payload undefined = err (error "Error" "Kafka message value is empty")
  deserialize_kafka_payload null = err (error "Error" "Kafka message value is empty")
  deserialize_kafka_payload (buffer text) = parse_text (trim text) "Kafka message Buffer is empty"
  deserialize_kafka_payload (str text) = parse_text (trim text) "Kafka message string is empty"
  deserialize_kafka_payload v = ok v

  abbrev invalid_payload : Result Value
  invalid_payload = err (error "Error" "Invalid Kafka event payload")

  -- the wrapper `{ data: envelope }`
  abbrev pub nested_envelope : Value → Result Value
  nested_envelope nested = if has_prop "eventId" nested then ok nested else invalid_payload

  abbrev pub envelope_within : Value → Result Value
  envelope_within normalized =
      if has_prop "eventId" normalized
      then ok normalized
      else if has_prop "data" normalized
      then nested_envelope (get "data" normalized)
      else invalid_payload

  unfoldable pub extract_envelope : Value → Result Value
  extract_envelope payload = do
    normalized ← deserialize_kafka_payload payload
    envelope_within normalized

  -- `catch (error) { throw new EventValidationError(message, [text of error]) }`
  abbrev pub as_validation : String → Thrown → Thrown
  as_validation message e = validation message (error_message e ∷ [])

  unfoldable pub deserialize_and_extract : Value → Result Value
  deserialize_and_extract raw = do
    deserialized ←
        map_error (as_validation "Failed to deserialize Kafka message")
          (deserialize_kafka_payload raw)
    map_error (as_validation "Failed to extract event envelope") (extract_envelope deserialized)

  -- The steps behind the filter, which the three pipelines share: the two validators, and the
  -- check that the correlation id is the order's id.
  unfoldable pub validated :
      EventType → (Value → Result (Unit {0})) → String → Value → Result Parsed
  validated event_type validate_payload message envelope = do
    validate_event_envelope envelope (some event_type)
    validate_payload (get "payload" envelope)
    if same_text (get "correlationId" envelope) (get "orderId" (get "payload" envelope))
        then ok (accepted envelope)
        else err (validation message ("correlationId must equal payload.orderId" ∷ []))

  abbrev pub skip : Value → Result Parsed
  skip envelope = ok (skipped "unsupported-event-type" (get "eventType" envelope))

  unfoldable pub parse_order_events_message : Value → Result Parsed
  parse_order_events_message raw = do
    envelope ← deserialize_and_extract raw
    if is_order_created_event envelope
        then validated order_created validate_order_created_payload "Invalid order.created envelope"
            envelope
        else skip envelope

  unfoldable pub parse_payment_processed_message : Value → Result Parsed
  parse_payment_processed_message raw = do
    envelope ← deserialize_and_extract raw
    if is_payment_processed_event envelope
        then validated payment_processed validate_payment_processed_payload
            "Invalid payment.processed envelope" envelope
        else skip envelope

  unfoldable pub parse_payment_failed_message : Value → Result Parsed
  parse_payment_failed_message raw = do
    envelope ← deserialize_and_extract raw
    if is_payment_failed_event envelope
        then validated payment_failed validate_payment_failed_payload
            "Invalid payment.failed envelope" envelope
        else skip envelope
