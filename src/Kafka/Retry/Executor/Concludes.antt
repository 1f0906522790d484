-- ===== src/Kafka/Retry/Executor/Concludes.antt =====
-- What an execution has done, by what its handler does when it returns.
use eventflow_kafka_microser.Prelude.{◌≡◌}
use eventflow_kafka_microser.Js.Io.{Io, World, ◌>>=◌, pure}
use eventflow_kafka_microser.Js.Io.Laws.{OnOk, OnOk-map, OnOk-ok, >>=-OnOk}
use eventflow_kafka_microser.Js.Host.{Host}
use eventflow_kafka_microser.Js.Value.{Value, Fields}
use eventflow_kafka_microser.Events.Types.{EventType}
use eventflow_kafka_microser.Events.Catalog.{ServiceName}
use eventflow_kafka_microser.Kafka.Retry.{RetryPolicyConfig}
use eventflow_kafka_microser.Kafka.Publisher.{KafkaEventTransport}
use eventflow_kafka_microser.Kafka.Publisher.Laws.{Transports}
use eventflow_kafka_microser.Kafka.Retry.Executor.{RetryOutcome, success, retry, dlq, execute}
use eventflow_kafka_microser.Kafka.Retry.Executor.Forwards.{Ends, execute-Forwarded}

module _ ⦃H : Host⦄ {Db : Type 0} (event_type : EventType) (envelope : Value) (headers : Fields)
    (policy : RetryPolicyConfig) (handler : Io Db (Unit {0}))
    (Q : World Db → Unit {0} → World Db → Type 0) where
  -- A success has done the handler's work, behind a wait that sends and stores nothing; the other
  -- outcomes have forwarded the message.
  abbrev pub Concludes : World Db → RetryOutcome → World Db → Type 0
  Concludes w success w' = (v : World Db) × (v.sent ≡ w.sent) × (v.db ≡ w.db) × Q v tt w'
  Concludes w retry w' = Ends event_type envelope headers policy handler w retry w'
  Concludes w dlq w' = Ends event_type envelope headers policy handler w dlq w'

  concludes :
      ((v : World Db) → OnOk (Q v) (handler v))
      → (w : World Db) (o : RetryOutcome) (w' : World Db)
      → Ends event_type envelope headers policy handler w o w'
      → Concludes w o w'
  concludes k w success w' (v, s, d, h) = (v, s, d, OnOk-ok (Q v) _ (k v) h)
  concludes k w retry w' h = h
  concludes k w dlq w' h = h

  pub execute-Concludes :
      (T : KafkaEventTransport Db) (L : Transports T) (service : ServiceName)
      → ((v : World Db) → OnOk (Q v) (handler v))
      → (w : World Db)
      → OnOk (Concludes w) (execute T service policy event_type envelope headers handler w)
  execute-Concludes T L service k w =
      OnOk-map (Ends event_type envelope headers policy handler w) (Concludes w) _ (concludes k w)
        (execute-Forwarded T L service policy event_type envelope headers handler w)

  -- The answer that a consumer makes of the outcome.
  pub execute_then-OnOk :
      {A : Type 0} (T : KafkaEventTransport Db) (L : Transports T) (service : ServiceName)
      (f : RetryOutcome → A) (R : A → World Db → Type 0) (w : World Db)
      → ((v : World Db) → OnOk (Q v) (handler v))
      → ((o : RetryOutcome) (w' : World Db) → Concludes w o w' → R (f o) w')
      → OnOk R
          ((execute T service policy event_type envelope headers handler >>= λ o. pure (f o)) w)
  execute_then-OnOk T L service f R w k h =
      >>=-OnOk R (execute T service policy event_type envelope headers handler) _ w
        (λ o w' e. h o w' (OnOk-ok (Concludes w) _ (execute-Concludes T L service k w) e))
