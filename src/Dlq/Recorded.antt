-- ===== src/Dlq/Recorded.antt =====
-- From the retry executor to the dlq-service: the failures that the former sends, as the latter reads
-- them.
use eventflow_kafka_microser.Prelude.{
  ◌≡◌, refl, String, some, ◌++◌, ◌∷◌, [], ◌+◌, Option, Bool, if◌then◌else◌, none, not, true, false,
}
use eventflow_kafka_microser.Js.Io.{World, ◌>>=◌, draw}
use eventflow_kafka_microser.Js.Io.Laws.{OnOk, OnOk-self}
use eventflow_kafka_microser.Js.Host.{Host, Message, error_message, read}
use eventflow_kafka_microser.Js.Errors.{Thrown, other}
use eventflow_kafka_microser.Js.Value.{Value, Fields, Num, get, prop, str, num, end, has}
use eventflow_kafka_microser.Kafka.Retry.{RetryPolicyConfig}
use eventflow_kafka_microser.Events.Types.{EventType}
use eventflow_kafka_microser.Events.Topics.{resolve_kafka_topic, to_dlq_topic}
use eventflow_kafka_microser.Events.Catalog.{ServiceName, service_name}
use eventflow_kafka_microser.Events.Failure.{
  FailureParams, create_failure_envelope, failure_payload, normalize_error, error_details,
  is_event_failure_payload,
}
use eventflow_kafka_microser.Dlq.{handle_dlq_message, Ack}
use eventflow_kafka_microser.Kafka.Consume.{extract_envelope, deserialize_kafka_payload}
use eventflow_kafka_microser.Events.Envelope.{envelope_object, is_text, create_event_envelope}
use eventflow_kafka_microser.Kafka.Publisher.{KafkaEventTransport, dlq_message}
use eventflow_kafka_microser.Kafka.Publisher.Laws.{Transports}
use eventflow_kafka_microser.Kafka.Retry.Executor.{send_to_dlq}
use eventflow_kafka_microser.Dlq.Coverage.{is_grouped, is_subscribed-dlq_message, is_subscribed}

module _ ⦃H : Host⦄ where
  -- A text of the error: its message, or the text of a thrown value that is no error.
  abbrev pub message_of : Thrown → String
  message_of (other v) = H.show v
  message_of e = error_message e

  -- What the payload of a failure tells.
  abbrev pub Tells : Value → EventType → ServiceName → Thrown → Num → Value → Type 0
  Tells envelope t service e attempt failure =
      (get "originalEnvelope" failure ≡ envelope)
      × (get "originalTopic" failure ≡ str (resolve_kafka_topic t))
      × (get "failedBy" failure ≡ str (service_name service))
      × (get "message" (get "error" failure) ≡ str (message_of e))
      × (get "attempt" (get "retry" failure) ≡ num attempt)

  module _ (envelope : Value) (t : EventType) (service : ServiceName) (attempt max : Num) where
    abbrev params : Thrown → FailureParams
    params e = record {
      original = envelope;
      original_topic = resolve_kafka_topic t;
      service = service;
      error = e;
      attempt = attempt;
      max_attempts = max;
    }

    -- An envelope around the failure.
    abbrev failure_of : Thrown → Value → Value → Value → Value → Value → Value
    failure_of e id at occurred failed version =
        envelope_object id (get "eventType" envelope) version at (get "correlationId" envelope)
          (get "eventId" envelope) (str (service_name service))
          (failure_payload (params e) (error_details e occurred) failed)

    acknowledged :
        (e : Thrown) (id at occurred failed version : Value) (topic : String)
        → handle_dlq_message topic (failure_of e id at occurred failed version)
          ≡ record { topic = topic; failure = some "event.failure" }
    unfolding handle_dlq_message extract_envelope deserialize_kafka_payload envelope_object
        failure_payload is_event_failure_payload is_text has get prop read
    acknowledged (other v) id at occurred failed version topic = refl
    acknowledged e id at occurred failed version topic = refl

    told :
        (e : Thrown) (occurred failed : Value)
        → Tells envelope t service e attempt
            (failure_payload (params e) (error_details e occurred) failed)
    unfolding failure_payload get prop
    told (other v) occurred failed = (refl, refl, refl, refl, refl)
    told e occurred failed = (refl, refl, refl, refl, refl)

  -- What the dlq-service makes of a record on a dead-letter topic: nothing where it has no pattern for it.
  abbrev pub dlq_answer : String → Value → Option Ack
  dlq_answer topic v = if is_subscribed topic then some (handle_dlq_message topic v) else none

  answer_by :
      (grouped : Bool) (topic : String) (v : Value) (ack : Ack)
      → is_subscribed topic ≡ not grouped
      → handle_dlq_message topic v ≡ ack
      → dlq_answer topic v ≡ (if grouped then none else some ack)
  answer_by true topic v ack s e = rw s refl
  answer_by false topic v ack s e = rw (s, e) refl

  module _ {Db : Type 0} (T : KafkaEventTransport Db) (L : Transports T) (service : ServiceName)
      (policy : RetryPolicyConfig) (t : EventType) (envelope : Value) (headers : Fields) where
    -- One record was sent; the dlq-service reads it where the type has a topic of its own, and then
    -- acknowledges it as a failure.
    abbrev pub Recorded : Thrown → Num → World Db → Unit {0} → World Db → Type 0
    Recorded e attempt w a w' =
        (m : Message) × (w'.sent ≡ w.sent ++ m ∷ [])
        × (m.topic ≡ to_dlq_topic (resolve_kafka_topic t))
        × (m.key ≡ get "correlationId" envelope)
        × (dlq_answer m.topic m.value ≡ (
            if is_grouped t
            then none
            else some (record { topic = m.topic; failure = some "event.failure" })))
        × Tells envelope t service e attempt (get "payload" m.value)
        × (w'.db ≡ w.db)

    -- If `sendToDlq` returns, one record was acknowledged by the client, on the dead-letter topic of the
    -- event's topic and keyed by the correlation id of the envelope; its payload holds the whole
    -- envelope, the topic it came from, the service, the text of the error and the attempt. The
    -- dlq-service reads that record and acknowledges it as a failure, unless the type is
    -- `order.created`, `payment.processed` or `payment.failed`: it has no pattern for the topic of
    -- the records of these three. Nothing else was sent or stored. The transport keeps its interface.
    pub send_to_dlq-Recorded :
        (e : Thrown) (attempt : Num) (w : World Db)
        → OnOk (Recorded e attempt w) (send_to_dlq T service policy t envelope headers e attempt w)
    unfolding ◌>>=◌ send_to_dlq create_failure_envelope normalize_error create_event_envelope draw
        dlq_message envelope_object failure_payload get prop
    send_to_dlq-Recorded e attempt w = OnOk-self (Recorded e attempt w) _ (λ a w' h.
        let (s, d) = L.publish_to_dlq-ok t _ end _ w' h in
        (
          _,
          s,
          refl,
          refl,
          answer_by (is_grouped t) _ _ _ (is_subscribed-dlq_message t envelope end)
              (acknowledged envelope t service attempt policy.max_attempts e _ _ _ _ _ _),
          told envelope t service attempt policy.max_attempts e (str (H.iso w.tick))
              (str (H.iso (w.tick + 1))),
          d,
        ))
