-- ===== src/Payment/Consumer/Handled.antt =====
-- An order that payment-service has not seen is handled with success.
use eventflow_kafka_microser.Prelude.{◌≡◌, ◌==◌, false, none, some, ℕ, ap, ◌∙◌}
use eventflow_kafka_microser.Js.Io.{◌>>=◌, World}
use eventflow_kafka_microser.Payment.Idempotency.{
  IdempotencyCheckResult, ProcessedEventRepository, ProcessedEvent, check_order_created,
}
use eventflow_kafka_microser.Payment.Consumer.{
  run, handled, on_parsed, handle_order_events, accept_order, dispatch,
}
use eventflow_kafka_microser.Js.Host.{Host, int}
use eventflow_kafka_microser.Kafka.Publisher.{KafkaEventTransport}
use eventflow_kafka_microser.Kafka.Publisher.Laws.{Transports}
use eventflow_kafka_microser.Kafka.Publisher.Reliable.{Reliable}
use eventflow_kafka_microser.Payment.Simulator.{
  FailureScenario, scenario_at, payment_failure_scenarios,
}
use eventflow_kafka_microser.Payment.Service.{handle_order_created, process_payment}
use eventflow_kafka_microser.Js.Value.{Value, Fields}
use eventflow_kafka_microser.Kafka.Consume.{parse_order_events_message, accepted}
use eventflow_kafka_microser.Js.Errors.{ok}
use eventflow_kafka_microser.Payment.Order.{as_order_created}
use eventflow_kafka_microser.Payment.Idempotency.{check}
use eventflow_kafka_microser.Js.Io.Laws.{OnOk}
use eventflow_kafka_microser.Kafka.Retry.Executor.{success}
use eventflow_kafka_microser.Kafka.Retry.Executor.Succeeds.{execute-Succeeds}
use eventflow_kafka_microser.Events.Catalog.{payment_service}
use eventflow_kafka_microser.Kafka.Retry.{resolve_consumer_retry_policy, no_overrides}
use eventflow_kafka_microser.Events.Types.{order_created}
use eventflow_kafka_microser.Kafka.Wire.{parse_kafka_headers}
use eventflow_kafka_microser.Payment.Service.Total.{process_payment-Returns}

module _ ⦃H : Host⦄ {Db : Type 0} (T : KafkaEventTransport Db) (L : Transports T) (Y : Reliable T)
    (R : ProcessedEventRepository Db)
    (saves : (n : ℕ) (row : ProcessedEvent) → R.save_error n row ≡ none)
    (picks : (n : ℕ)
      → (s : FailureScenario) × (scenario_at payment_failure_scenarios
            (H.floor (H.mul (H.random n) (int 4)))
          ≡ some s)) where
  -- With a transport that publishes, a table that saves every row and random numbers that pick one of
  -- the four scenarios, a message of an accepted order that is new is answered with success, and
  -- `processPayment` was run for it behind a wait that sends and stores nothing.
  pub handle_order_events-handled :
      (Q : World Db → Unit {0} → World Db → Type 0) (raw v : Value) (headers : Fields)
      (w : World Db)
      → parse_order_events_message raw ≡ ok (accepted v)
      → ((as_order_created v).payload.order_id == "") ≡ false
      → check R w.db (as_order_created v).event_id (as_order_created v).payload.order_id
        ≡ IdempotencyCheckResult.new
      → ((u : World Db) → OnOk (Q u) (process_payment T R (as_order_created v) u))
      → (w' : World Db) × (handle_order_events T R raw headers w ≡ (ok (handled success), w'))
        × (u : World Db) × (u.sent ≡ w.sent)
        × (u.db ≡ w.db)
        × Q u tt w'
  unfolding handle_order_events accept_order check_order_created run handle_order_created ◌>>=◌
  handle_order_events-handled Q raw v headers w p e fresh good =
      let event = as_order_created v in
      let (w', r, (u, s, d, q)) =
        execute-Succeeds T L Y payment_service (resolve_consumer_retry_policy no_overrides)
          order_created event.envelope (parse_kafka_headers headers) (process_payment T R event) Q
          handled w (λ u k. process_payment-Returns T Y R event e saves picks u) good in
      (
        w',
        ap (λ x. on_parsed T R headers x w) p
            ∙ ap (λ c. dispatch T R event (parse_kafka_headers headers) c w) fresh
            ∙ r,
        u,
        s,
        d,
        q,
      )
