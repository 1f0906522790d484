-- ===== src/Events/Failure.antt =====
-- shared/src/events/event-failure.ts: the envelope of a message that goes to a dead-letter topic.
use eventflow_kafka_microser.Js.Io.{◌>>=◌, Io, pure}
use eventflow_kafka_microser.Js.Value.{Value, obj, bool, field, Num, str, end, get, num, undefined}
use eventflow_kafka_microser.Js.Host.{Host, is_object, error_message}
use eventflow_kafka_microser.Prelude.{String, Bool, ◌&&◌}
use eventflow_kafka_microser.Js.Errors.{Thrown, error, other, validation}
use eventflow_kafka_microser.Events.Catalog.{ServiceName, service_name}
use eventflow_kafka_microser.Events.Envelope.{iso_now, create_event_envelope, is_text}

-- What `createFailureEnvelope` is given.
pub record FailureParams : Type 0 where
  pub original : Value
  pub original_topic : String
  pub service : ServiceName
  pub error : Thrown
  pub attempt : Num
  pub max_attempts : Num

module _ ⦃H : Host⦄ where
  unfoldable pub error_name : Thrown → String
  error_name (error name message) = name
  error_name (validation m ds) = "EventValidationError"
  error_name (other v) = "UnknownError"

  abbrev pub error_details : Thrown → Value → Value
  error_details (other v) occurred_at = obj (
      field "message" (str (H.show v))
        (field "name" (str "UnknownError") (field "occurredAt" occurred_at end)))
  error_details e occurred_at = obj (
      field "message" (str (error_message e)) (
        field "name" (str (error_name e))
          (field "stack" (H.stack e) (field "occurredAt" occurred_at end))))

  module _ {Db : Type 0} where
    unfoldable pub normalize_error : Thrown → Io Db Value
    normalize_error e = do occurred_at ← iso_now; pure (error_details e occurred_at)

  unfoldable pub failure_payload : FailureParams → Value → Value → Value
  failure_payload p details failed_at = obj (
      field "kind" (str "event.failure") (
        field "originalTopic" (str p.original_topic) (
          field "originalEventId" (get "eventId" p.original) (
            field "originalEventType" (get "eventType" p.original) (
              field "originalSource" (get "source" p.original) (
                field "correlationId" (get "correlationId" p.original) (
                  field "originalPayload" (get "payload" p.original) (
                    field "originalEnvelope" p.original (
                      field "error" details (
                        field "retry"
                          (obj (
                            field "attempt" (num p.attempt) (
                              field "maxAttempts" (num p.max_attempts) (
                                field "exhausted" (bool (H.le p.max_attempts p.attempt))
                                  (field "nextRetryAt" undefined end)))))
                          (field "failedBy" (str (service_name p.service))
                            (field "failedAt" failed_at end))))))))))))

  module _ {Db : Type 0} where
    unfoldable pub create_failure_envelope : FailureParams → Io Db Value
    create_failure_envelope p = do
      details ← normalize_error p.error
      failed_at ← iso_now
      create_event_envelope (record {
        event_type = get "eventType" p.original;
        source = str (service_name p.service);
        correlation_id = get "correlationId" p.original;
        causation_id = get "eventId" p.original;
        payload = failure_payload p details failed_at;
        version = undefined;
        event_id = undefined;
        timestamp = undefined;
      })

-- `isEventFailurePayload`
unfoldable pub is_event_failure_payload : Value → Bool
is_event_failure_payload payload = is_object payload && is_text "event.failure" (get "kind" payload)
