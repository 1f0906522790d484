-- ===== src/Payment/Service.antt =====
-- services/payment-service/src/payment/payment.service.ts
pub mod Tells
pub mod Laws
pub mod Total
pub mod Refused
use eventflow_kafka_microser.Js.Io.{◌>>=◌, ◌>>◌, Io, draw, pure, lift, sleep}
use eventflow_kafka_microser.Js.Host.{Host, read, truthy_num, int}
use eventflow_kafka_microser.Kafka.Publisher.{KafkaEventTransport}
use eventflow_kafka_microser.Payment.Idempotency.{
  ProcessedEventRepository, ProcessedEventOutcome, ProcessedEvent, record_processed,
}
use eventflow_kafka_microser.Payment.Order.{OrderCreated}
use eventflow_kafka_microser.Prelude.{
  String, Option, List, some, if◌then◌else◌, none, ◌∷◌, ◌&&◌, concat, [],
}
use eventflow_kafka_microser.Js.Value.{Value, Num, get, str, obj, field, num, end}
use eventflow_kafka_microser.Payment.Simulator.{Simulation, simulate_payment_gateway}
use eventflow_kafka_microser.Events.Envelope.{create_event_envelope, iso_now, event_params}
use eventflow_kafka_microser.Payment.Rules.{
  PaymentRuleViolation, evaluate_payment_rules, resolve_payment_business_rules,
  format_rule_violations,
}
use eventflow_kafka_microser.Events.Types.{
  order_created, payment_requested, payment_processed, payment_failed,
}

module _ ⦃H : Host⦄ {Db : Type 0} (publisher : KafkaEventTransport Db)
    (repository : ProcessedEventRepository Db) where
  unfoldable pub publish_payment_requested : OrderCreated → String → Io Db Value
  publish_payment_requested event payment_id = do
    requested ← create_event_envelope (
        event_params payment_requested "payment-service" (str event.payload.order_id)
          (str event.event_id)
          (obj (
            field "paymentId" (str payment_id) (
              field "orderId" (str event.payload.order_id) (
                field "amount" (num event.payload.total_amount)
                  (field "currency" (str event.payload.currency) end))))))
    publisher.publish payment_requested requested end
    pure requested

  unfoldable pub publish_payment_processed : String → String → String → Value → Io Db (Unit {0})
  publish_payment_processed payment_id order_id transaction_id causation_id = do
    processed_at ← iso_now
    processed ← create_event_envelope (
        event_params payment_processed "payment-service" (str order_id) causation_id (
          obj (
            field "paymentId" (str payment_id) (
              field "orderId" (str order_id) (
                field "transactionId" (str transaction_id)
                  (field "processedAt" processed_at end))))))
    publisher.publish payment_processed processed end

  unfoldable pub publish_payment_failed : String → String → String → Value → Io Db (Unit {0})
  publish_payment_failed payment_id order_id reason causation_id = do
    failed_at ← iso_now
    failed ← create_event_envelope (
        event_params payment_failed "payment-service" (str order_id) causation_id (
          obj (
            field "paymentId" (str payment_id) (
              field "orderId" (str order_id)
                (field "reason" (str reason) (field "failedAt" failed_at end))))))
    publisher.publish payment_failed failed end

  -- The row that `recordProcessed` writes for an `order.created`.
  abbrev pub outcome_row : OrderCreated → String → ProcessedEventOutcome → ProcessedEvent
  outcome_row event payment_id outcome = record {
    inbound_event_id = event.event_id;
    event_type = order_created;
    order_id = event.payload.order_id;
    payment_id = some payment_id;
    outcome = outcome;
  }

  -- The failure is published before it is recorded.
  unfoldable pub fail_payment : OrderCreated → String → Value → String → Io Db (Unit {0})
  fail_payment event payment_id requested reason = do
    publish_payment_failed payment_id event.payload.order_id reason (get "eventId" requested)
    record_processed repository (outcome_row event payment_id ProcessedEventOutcome.failed)

  unfoldable pub approve_payment : OrderCreated → String → Value → Io Db (Unit {0})
  approve_payment event payment_id requested = do
    transaction_id ← draw H.uuid
    publish_payment_processed payment_id event.payload.order_id transaction_id
        (get "eventId" requested)
    record_processed repository (outcome_row event payment_id ProcessedEventOutcome.approved)

  -- `if (result.simulateDelayMs && result.simulateDelayMs > 0) await sleep(...)`
  abbrev pub simulated_delay : Option Num → Io Db (Unit {0})
  simulated_delay none = pure tt
  simulated_delay (some ms) = if truthy_num ms && H.lt (int 0) ms then sleep ms else pure tt

  abbrev pub settle : OrderCreated → String → Value → Simulation → Io Db (Unit {0})
  settle event payment_id requested (Simulation.approved _) =
      approve_payment event payment_id requested
  settle event payment_id requested (Simulation.failed _ _ reason delay) = do
    simulated_delay delay
    fail_payment event payment_id requested reason

  abbrev pub charge : OrderCreated → String → Value → List PaymentRuleViolation → Io Db (Unit {0})
  charge event payment_id requested [] = do
    result ←
        simulate_payment_gateway event.payload.order_id
          (record { payment_id = some payment_id; failure_rate = none; force_failure = none })
    settle event payment_id requested result
  charge event payment_id requested (v ∷ vs) =
      fail_payment event payment_id requested
        (concat ("business_rule: " ∷ format_rule_violations (v ∷ vs) ∷ []))

  unfoldable pub process_payment : OrderCreated → Io Db (Unit {0})
  process_payment event = do
    payment_id ← draw H.uuid
    requested ← publish_payment_requested event payment_id
    charge event payment_id requested
        (evaluate_payment_rules event.payload resolve_payment_business_rules)

  unfoldable pub handle_order_created : OrderCreated → Io Db (Unit {0})
  handle_order_created event = process_payment event

  -- It only logs; what it logs is read from the payload.
  unfoldable pub handle_order_cancelled : Value → Io Db (Unit {0})
  handle_order_cancelled event = do
    _ ← lift (read "orderId" (get "payload" event))
    _ ← lift (read "reason" (get "payload" event))
    pure tt
