-- ===== src/Events/Envelope.antt =====
-- shared/src/events/envelope.ts and create-envelope.ts: the envelope of every message.
use eventflow_kafka_microser.Prelude.{String, Bool, false, ◌==◌}
use eventflow_kafka_microser.Js.Value.{Value, undefined, null, str, obj, end, field, get}
use eventflow_kafka_microser.Js.Host.{Host}
use eventflow_kafka_microser.Js.Io.{Io, pure, ◌>>=◌, draw}
use eventflow_kafka_microser.Events.Types.{
  EventType, event_name, order_created, payment_processed, payment_failed,
}

abbrev pub event_schema_version : String
event_schema_version = "1.0"

-- `CreateEventEnvelopeParams`; an optional field that is left out is `undefined`.
pub record EnvelopeParams : Type 0 where
  pub event_type : Value
  pub source : Value
  pub correlation_id : Value
  pub causation_id : Value
  pub payload : Value
  pub version : Value
  pub event_id : Value
  pub timestamp : Value

unfoldable pub envelope_object :
    Value → Value → Value → Value → Value → Value → Value → Value → Value
envelope_object event_id event_type version timestamp correlation_id causation_id source payload =
    obj (
      field "eventId" event_id (
        field "eventType" event_type (
          field "version" version (
            field "timestamp" timestamp (
              field "correlationId" correlation_id (
                field "causationId" causation_id
                  (field "source" source (field "payload" payload end))))))))

module _ {Db : Type 0} where
  -- `v ?? default()`
  abbrev pub or_else : Value → Io Db Value → Io Db Value
  or_else undefined d w = d w
  or_else null d w = d w
  or_else v d w = pure v w

  module _ ⦃H : Host⦄ where
    -- `randomUUID()`, `new Date().toISOString()`
    abbrev pub random_uuid : Io Db Value
    random_uuid = draw (λ n. str (H.uuid n))

    abbrev pub iso_now : Io Db Value
    iso_now = draw (λ n. str (H.iso n))

    unfoldable pub create_event_envelope : EnvelopeParams → Io Db Value
    unfolding ◌>>=◌ draw envelope_object
    create_event_envelope p = do
      event_id ← or_else p.event_id random_uuid
      version ← or_else p.version (pure (str event_schema_version))
      timestamp ← or_else p.timestamp iso_now
      pure (
          envelope_object event_id p.event_type version timestamp p.correlation_id p.causation_id
            p.source p.payload)

-- The parameters that the services give: the other fields take their defaults.
unfoldable pub event_params : EventType → String → Value → Value → Value → EnvelopeParams
unfolding event_name
event_params event_type source correlation_id causation_id payload = record {
  event_type = str (event_name event_type);
  source = str source;
  correlation_id = correlation_id;
  causation_id = causation_id;
  payload = payload;
  version = undefined;
  event_id = undefined;
  timestamp = undefined;
}

-- `v === text`
unfoldable pub is_text : String → Value → Bool
is_text t (str s) = s == t
is_text t _ = false

-- `envelope.eventType === eventType`
unfoldable pub is_event_type : Value → EventType → Bool
is_event_type envelope event_type = is_text (event_name event_type) (get "eventType" envelope)

unfoldable pub is_order_created_event : Value → Bool
is_order_created_event envelope = is_event_type envelope order_created

unfoldable pub is_payment_processed_event : Value → Bool
is_payment_processed_event envelope = is_event_type envelope payment_processed

unfoldable pub is_payment_failed_event : Value → Bool
is_payment_failed_event envelope = is_event_type envelope payment_failed
