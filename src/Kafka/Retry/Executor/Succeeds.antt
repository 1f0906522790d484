-- ===== src/Kafka/Retry/Executor/Succeeds.antt =====
-- Executions of a handler that returns.
use eventflow_kafka_microser.Prelude.{◌≡◌, ◌∙◌, ap, subst, refl}
use eventflow_kafka_microser.Js.Host.{Host}
use eventflow_kafka_microser.Kafka.Publisher.{KafkaEventTransport}
use eventflow_kafka_microser.Kafka.Publisher.Laws.{Transports}
use eventflow_kafka_microser.Kafka.Publisher.Reliable.{Reliable}
use eventflow_kafka_microser.Events.Catalog.{ServiceName}
use eventflow_kafka_microser.Kafka.Retry.{RetryPolicyConfig}
use eventflow_kafka_microser.Events.Types.{EventType}
use eventflow_kafka_microser.Js.Value.{Value, Fields}
use eventflow_kafka_microser.Js.Io.{◌>>=◌, Io, World, pure}
use eventflow_kafka_microser.Kafka.Retry.Executor.{RetryOutcome, execute, success, wait_until}
use eventflow_kafka_microser.Js.Io.Returns.{
  Returns, Returns-OnOk, >>=-pure, >>=-Returns_known, attempt-returned, >>=-Returns,
}
use eventflow_kafka_microser.Js.Io.Laws.{OnOk, OnOk-ok, Keeps, Keeps-OnOk, attempt_then-OnOk}
use eventflow_kafka_microser.Kafka.Retry.Executor.Total.{wait_until-Returns}
use eventflow_kafka_microser.Js.Errors.{ok}
use eventflow_kafka_microser.Kafka.Retry.Executor.Concludes.{Concludes, execute-Concludes}
use eventflow_kafka_microser.Kafka.Wire.{get_retry_at}
use eventflow_kafka_microser.Kafka.Retry.Executor.Forwards.{wait_until-keeps}

module _ ⦃H : Host⦄ {Db : Type 0} (T : KafkaEventTransport Db) (L : Transports T) (Y : Reliable T)
    (service : ServiceName) (policy : RetryPolicyConfig) (event_type : EventType) (envelope : Value)
    (headers : Fields) (handler : Io Db (Unit {0}))
    (Q : World Db → Unit {0} → World Db → Type 0) where
  -- The wait before the handler, which returns and keeps what was sent and stored.
  waits :
      (w : World Db)
      → Returns (wait_until T service policy event_type envelope headers (get_retry_at headers) w)
        × OnOk
            (Keeps w)
            (wait_until T service policy event_type envelope headers (get_retry_at headers) w)
  waits w = (
    wait_until-Returns T Y service policy event_type envelope headers (get_retry_at headers) w,
    wait_until-keeps T L service policy event_type envelope headers (get_retry_at headers) w,
  )

  -- A handler that returns is a success.
  execute-success :
      (w : World Db)
      → ((v : World Db) → Keeps w tt v → Returns (handler v))
      → Returns (execute T service policy event_type envelope headers handler w)
        × OnOk
            (λ o w'. o ≡ success)
            (execute T service policy event_type envelope headers handler w)
  unfolding execute
  execute-success w k =
      let wait = wait_until T service policy event_type envelope headers (get_retry_at headers) in
      let (r, q) = waits w in
      (
        >>=-Returns_known (Keeps w) wait _ w r q
            (λ a v s. attempt-returned _ _ v (>>=-Returns handler _ v (k v s) (λ b u. tt))),
        Keeps-OnOk (λ o w'. o ≡ success) wait _ w q
            (λ a v s.
              attempt_then-OnOk (λ o w'. o ≡ success) handler success _ v (λ x v' i. refl)
                (λ e u i. absurd (subst Returns i (k v s)))),
      )

  -- The handler's work was done behind a wait, and the answer is made of a success.
  abbrev pub Succeeds : {A : Type 0} → (RetryOutcome → A) → World Db → Type 0
  Succeeds {A} f w =
      (w' : World Db) × ((execute T service policy event_type envelope headers handler >>= λ o.
      pure (f o))
          w
        ≡ (ok (f success), w'))
      × Concludes event_type envelope headers policy handler Q w success w'

  pub execute-Succeeds :
      {A : Type 0} (f : RetryOutcome → A) (w : World Db)
      → ((v : World Db) → Keeps w tt v → Returns (handler v))
      → ((v : World Db) → OnOk (Q v) (handler v))
      → Succeeds f w
  execute-Succeeds f w returns fine =
      let m = execute T service policy event_type envelope headers handler in
      let (end, good) = execute-success w returns in
      let (o, w', r, s) = Returns-OnOk (λ o w'. o ≡ success) (m w) end good in
      let done : m w ≡ (ok success, w') = r ∙ ap (λ o. (ok o, w')) s in
      (
        w',
        >>=-pure m f success w w' done,
        OnOk-ok (Concludes event_type envelope headers policy handler Q w) (m w)
            (execute-Concludes event_type envelope headers policy handler Q T L service fine w)
            done,
      )
