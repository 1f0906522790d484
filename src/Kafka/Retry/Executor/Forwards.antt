-- ===== src/Kafka/Retry/Executor/Forwards.antt =====
-- No message is lost: what an execution that returns has done with it.
use eventflow_kafka_microser.Prelude.{◌≡◌, refl, true, false, Option, some, none, ◌⊎◌, inl, inr}
use eventflow_kafka_microser.Js.Io.{Io, World, ◌>>=◌, draw, sleep}
use eventflow_kafka_microser.Js.Host.{Host, Message, int, truthy_num}
use eventflow_kafka_microser.Js.Errors.{ok, err, Thrown}
use eventflow_kafka_microser.Js.Value.{Value, Fields, Num, get, end, prop}
use eventflow_kafka_microser.Events.Types.{EventType}
use eventflow_kafka_microser.Kafka.Publisher.Laws.{Transports, Accepted}
use eventflow_kafka_microser.Kafka.Retry.{RetryPolicyConfig, should_send_to_dlq, should_retry}
use eventflow_kafka_microser.Kafka.Publisher.{KafkaEventTransport, event_message, dlq_message}
use eventflow_kafka_microser.Kafka.Wire.{
  get_retry_count, build_retry_headers, envelope_to_kafka_headers, get_retry_at,
}
use eventflow_kafka_microser.Kafka.Retry.Executor.{
  RetryOutcome, send_to_dlq, schedule_retry, success, retry, dlq, on_failure, execute, wait_until,
}
use eventflow_kafka_microser.Events.Catalog.{ServiceName}
use eventflow_kafka_microser.Events.Failure.{
  create_failure_envelope, normalize_error, failure_payload,
}
use eventflow_kafka_microser.Events.Topics.{resolve_kafka_topic}
use eventflow_kafka_microser.Events.Envelope.{create_event_envelope, envelope_object}
use eventflow_kafka_microser.Js.Io.Laws.{
  OnOk, if-OnOk, >>=-OnOk, OnOk-ok, attempt_then-OnOk, OnOk-map,
}

module _ ⦃H : Host⦄ {Db : Type 0} (event_type : EventType) (envelope : Value) (headers : Fields)
    (policy : RetryPolicyConfig) (handler : Io Db (Unit {0})) where
  abbrev pub next_attempt : Num
  next_attempt = H.add (get_retry_count headers) (int 1)

  -- What became of the message when the execution from `w` ended in `w'`: its handler, run behind the
  -- wait, returned; or the handler threw, and behind what it did the message was published again with
  -- the next attempt in its headers, or its failure, with the envelope in it, went to the dead-letter
  -- topic, as the policy says.
  abbrev pub Forwarded : World Db → World Db → RetryOutcome → Type 0
  Forwarded v w' success = handler v ≡ (ok tt, w')
  Forwarded v w' retry =
      (e : Thrown) × (u : World Db) × (retry_at : Num) × (m : Message) × (handler v ≡ (err e, u))
      × (event_message event_type envelope (
            build_retry_headers next_attempt policy.max_attempts retry_at
              (resolve_kafka_topic event_type) (envelope_to_kafka_headers envelope))
          ≡ ok m)
      × (should_send_to_dlq next_attempt policy ≡ false)
      × (should_retry next_attempt policy ≡ true)
      × Accepted m u w'
  Forwarded v w' dlq =
      (e : Thrown) × (u : World Db) × (failure : Value) × (handler v ≡ (err e, u))
      × ((should_send_to_dlq next_attempt policy ≡ true)
          ⊎ (should_retry next_attempt policy ≡ false))
      × (get "originalEnvelope" (get "payload" failure) ≡ envelope)
      × Accepted (dlq_message event_type failure end) u w'

  -- The same, with the wait before the handler, which sends and stores nothing.
  abbrev pub Ends : World Db → RetryOutcome → World Db → Type 0
  Ends w o w' = (v : World Db) × (v.sent ≡ w.sent) × (v.db ≡ w.db) × Forwarded v w' o

module _ ⦃H : Host⦄ {Db : Type 0} (T : KafkaEventTransport Db) (L : Transports T)
    (service : ServiceName) (policy : RetryPolicyConfig) (event_type : EventType) (envelope : Value)
    (headers : Fields) where
  send_to_dlq-ok :
      (e : Thrown) (n : Num) (u w' : World Db)
      → send_to_dlq T service policy event_type envelope headers e n u ≡ (ok tt, w')
      → (failure : Value) × (get "originalEnvelope" (get "payload" failure) ≡ envelope)
        × Accepted (dlq_message event_type failure end) u w'
  unfolding ◌>>=◌ send_to_dlq create_failure_envelope normalize_error create_event_envelope draw
      failure_payload envelope_object get prop
  send_to_dlq-ok e n u w' h = (_, refl, L.publish_to_dlq-ok event_type _ end _ w' h)

  schedule_retry-ok :
      (n : Num) (u w' : World Db)
      → schedule_retry T service policy event_type envelope headers n u ≡ (ok tt, w')
      → (retry_at : Num) × (m : Message) × (event_message event_type envelope (
            build_retry_headers n policy.max_attempts retry_at
              (resolve_kafka_topic event_type)
              (envelope_to_kafka_headers envelope))
          ≡ ok m)
        × Accepted m u w'
  unfolding ◌>>=◌ schedule_retry draw sleep
  schedule_retry-ok n u w' h =
      (let (m, e, a) = L.publish-ok event_type envelope _ _ w' h in (_, m, e, a))

  pub wait_until-keeps :
      (at : Option Num) (w : World Db)
      → OnOk
          (λ _ v. (v.sent ≡ w.sent) × (v.db ≡ w.db))
          (wait_until T service policy event_type envelope headers at w)
  unfolding ◌>>=◌ draw sleep
  wait_until-keeps none w = (refl, refl)
  wait_until-keeps (some t) w =
      if-OnOk _ (truthy_num t) _ _ w
        (λ h. if-OnOk _ (H.lt (H.now w.tick) t) _ _ _ (λ i. (refl, refl)) (λ i. (refl, refl)))
        (λ h. (refl, refl))

  module _ (handler : Io Db (Unit {0})) where
    on_failure-Forwarded :
        (v : World Db) (e : Thrown) (u : World Db)
        → handler v ≡ (err e, u)
        → OnOk
            (λ o w'. Forwarded event_type envelope headers policy handler v w' o)
            (on_failure T service policy event_type envelope headers e u)
    unfolding on_failure
    on_failure-Forwarded v e u h =
        if-OnOk _ (should_send_to_dlq _ policy) _ _ u
          (λ i.
            >>=-OnOk _ (send_to_dlq T service policy event_type envelope headers e _) _ u
              (λ a w' j. let (f, o, p) = send_to_dlq-ok e _ u w' j in (e, u, f, h, inl i, o, p)))
          (λ i.
            if-OnOk _ (should_retry _ policy) _ _ u
              (λ k.
                >>=-OnOk _ (schedule_retry T service policy event_type envelope headers _) _ u
                  (λ a w' j.
                    let (t, m, q, p) = schedule_retry-ok _ u w' j in (e, u, t, m, h, q, i, k, p)))
              (λ k.
                >>=-OnOk _ (send_to_dlq T service policy event_type envelope headers e _) _ u
                  (λ a w' j.
                    let (f, o, p) = send_to_dlq-ok e _ u w' j in (e, u, f, h, inr k, o, p))))

    -- No message is lost, with a transport that keeps its interface: if `execute` returns, then behind its wait, which sends and stores nothing, the
    -- handler returned; or it threw, and either the message was published again, with the next attempt
    -- in its headers and because the policy allows one more, or its failure, with the envelope in it,
    -- was accepted on the dead-letter topic, because the policy allows no more. Nothing else was sent or stored behind the handler.
    pub execute-Forwarded :
        (w : World Db)
        → OnOk
            (Ends event_type envelope headers policy handler w)
            (execute T service policy event_type envelope headers handler w)
    unfolding execute
    execute-Forwarded w =
        >>=-OnOk _ (wait_until T service policy event_type envelope headers (get_retry_at headers))
          _ w
          (λ a v h.
            let (s, d) = OnOk-ok _ _ (wait_until-keeps (get_retry_at headers) w) h in
            attempt_then-OnOk _ handler success _ v (λ x v' i. (v, s, d, i))
              (λ e u i.
                OnOk-map (λ o w'. Forwarded event_type envelope headers policy handler v w' o)
                  (Ends event_type envelope headers policy handler w) _ (λ o w' f. (v, s, d, f))
                  (on_failure-Forwarded v e u i)))
