-- ===== src/Kafka/Wire.antt =====
-- The wire format: shared/src/kafka/kafka-headers.ts, `envelopeToKafkaHeaders` of
-- envelope-kafka.ts, partition-key.ts and retry/retry-headers.ts.
pub mod RoundTrip
use eventflow_kafka_microser.Prelude.{
  String, concat, Option, if◌then◌else◌, ◌==◌, none, some, ◌∷◌, [],
}
use eventflow_kafka_microser.Js.Host.{Host, is_object, int, truthy}
use eventflow_kafka_microser.Js.Value.{
  Value, Fields, field, buffer, Num, get, str, prop, put, end, spread,
}
use eventflow_kafka_microser.Js.Errors.{Result, err, error, ok}

abbrev pub partition_key_field : String
partition_key_field = "orderId"

module _ ⦃H : Host⦄ where
  unfoldable pub envelope_to_kafka_headers : Value → Fields
  envelope_to_kafka_headers envelope =
      let headers = field "x-event-id" (get "eventId" envelope) (
        field "x-event-type" (get "eventType" envelope) (
          field "x-correlation-id" (get "correlationId" envelope) (
            field "x-source" (get "source" envelope)
              (field "x-schema-version" (get "version" envelope) end)))) in
      if truthy (get "causationId" envelope)
      then put "x-causation-id" (get "causationId" envelope) headers
      else headers

-- `typeof key !== 'string' || key.length === 0`
abbrev pub partition_key : Value → Result String
partition_key (str key) =
    if key == ""
    then err (
        error "Error" (
          concat (
            "Missing or invalid partition key field \"" ∷ partition_key_field
            ∷ "\" in event payload" ∷ [])))
    else ok key
partition_key _ = err (
    error "Error" (
      concat (
        "Missing or invalid partition key field \"" ∷ partition_key_field ∷ "\" in event payload"
        ∷ [])))

unfoldable pub get_partition_key_from_payload : Value → Result String
unfolding concat
get_partition_key_from_payload payload =
    if is_object payload
    then partition_key (get partition_key_field payload)
    else err (
        error "Error" (
          concat (
            "Cannot resolve partition key: payload must be an object with \"" ∷ partition_key_field
            ∷ "\"" ∷ [])))

unfoldable pub resolve_partition_key : Value → Result String
resolve_partition_key envelope = get_partition_key_from_payload (get "payload" envelope)

-- `RetryHeader`
abbrev pub retry_count_header : String
retry_count_header = "x-retry-count"

abbrev pub retry_max_header : String
retry_max_header = "x-retry-max"

abbrev pub retry_at_header : String
retry_at_header = "x-retry-at"

abbrev pub original_topic_header : String
original_topic_header = "x-original-topic"

-- One entry of `parseKafkaHeaders`: buffers and strings are kept, as text.
abbrev parsed_header : String → Value → Fields → Fields
parsed_header k (buffer s) fs = field k (str s) fs
parsed_header k (str s) fs = field k (str s) fs
parsed_header k _ fs = fs

unfoldable pub parse_kafka_headers : Fields → Fields
parse_kafka_headers end = end
parse_kafka_headers (field k v fs) = parsed_header k v (parse_kafka_headers fs)

module _ ⦃H : Host⦄ where
  -- `Number(raw)` of a header that is set: parsed headers hold texts only
  abbrev header_number : Value → Num → Num
  header_number (str raw) absent = if raw == "" then absent else H.parse raw
  header_number _ absent = absent

  unfoldable pub get_retry_count : Fields → Num
  get_retry_count headers =
      let count = header_number (prop retry_count_header headers) (int 0) in
      if H.is_finite count then count else int 0

  abbrev header_time : Value → Option Num
  header_time (str raw) =
      if raw == "" then none else if H.is_finite (H.parse raw) then some (H.parse raw) else none
  header_time _ = none

  unfoldable pub get_retry_at : Fields → Option Num
  get_retry_at headers = header_time (prop retry_at_header headers)

  unfoldable pub build_retry_headers : Num → Num → Num → String → Fields → Fields
  build_retry_headers retry_count max_attempts retry_at original_topic envelope_headers =
      put original_topic_header (str original_topic) (
        put retry_at_header (str (H.print retry_at)) (
          put retry_max_header (str (H.print max_attempts))
            (put retry_count_header (str (H.print retry_count)) envelope_headers)))

  unfoldable pub merge_envelope_and_retry_headers : Fields → Fields → Fields
  merge_envelope_and_retry_headers envelope_headers retry_headers =
      let kept = field "x-event-id" (prop "x-event-id" envelope_headers) (
        field "x-event-type" (prop "x-event-type" envelope_headers) (
          field "x-correlation-id" (prop "x-correlation-id" envelope_headers) (
            field "x-source" (prop "x-source" envelope_headers)
              (field "x-schema-version" (prop "x-schema-version" envelope_headers) end)))) in
      let traced =
        if truthy (prop "x-causation-id" envelope_headers)
        then put "x-causation-id" (prop "x-causation-id" envelope_headers) kept
        else kept in
      spread traced retry_headers
