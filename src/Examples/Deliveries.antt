-- ===== src/Examples/Deliveries.antt =====
-- Retries and configurations of whole numbers, and a message that fails at each delivery.
use eventflow_kafka_microser.Prelude.{
  ◌≡◌, refl, arith, ℕ, zero, suc, ◌≤◌, ◌<◌, ◌*◌, ◌^◌, All, true, ◌&&◌, [], not, ◌↔◌, false,
}
use eventflow_kafka_microser.Js.Io.{throw}
use eventflow_kafka_microser.Js.Errors.{ok, error}
use eventflow_kafka_microser.Js.Value.{end, get, prop, double}
use eventflow_kafka_microser.Js.Host.Laws.{WholeArithmetic, max_safe_integer}
use eventflow_kafka_microser.Events.Types.{order_created}
use eventflow_kafka_microser.Examples.Surroundings.{surrounding-WholeNumbers}
use eventflow_kafka_microser.Examples.Messages.{calm, T0, order_message, three_attempts, start_0}
use eventflow_kafka_microser.Kafka.Publisher.Laws.{event_publisher-Transports}
use eventflow_kafka_microser.Kafka.Publisher.Reliable.{event_publisher-Reliable}
use eventflow_kafka_microser.Kafka.Wire.{
  resolve_partition_key, get_partition_key_from_payload, get_retry_count,
}
use eventflow_kafka_microser.Kafka.Retry.Executor.Deliveries.{DeadLettered, execute-DeadLettered}
use eventflow_kafka_microser.Kafka.Retry.Backoff.{
  WholePolicy, geometric, get_retry_backoff_schedule-geometric,
}
use eventflow_kafka_microser.Kafka.Retry.{
  get_retry_backoff_schedule, resolve_producer_retry_policy, resolve_retry_policy,
  resolve_retry_number, no_overrides,
}
use eventflow_kafka_microser.Events.Catalog.{payment_service, stock_service, order_service}
use eventflow_kafka_microser.Kafka.Config.Laws.{
  IsBroker, get_kafka_config-retries, resolve_kafka_brokers-IsBroker,
}
use eventflow_kafka_microser.Kafka.Config.{resolve_kafka_brokers, split, bootstrap_servers}
use eventflow_kafka_microser.Kafka.Config.Clients.{
  get_kafka_client_config, get_kafka_consumer_config,
}
use eventflow_kafka_microser.Saga.Subscriptions.{is_listed, is_heard, is_heard-is_listed}
use eventflow_kafka_microser.Js.Text.{not_blank}

keyed_order : resolve_partition_key order_message ≡ ok "order-1"
unfolding resolve_partition_key get_partition_key_from_payload get prop
keyed_order = refl

no_retries : get_retry_count ⦃H = calm⦄ end ≡ double 0
unfolding get_retry_count prop
no_retries = refl

execute-DeadLettered_example :
    DeadLettered ⦃H = calm⦄ T0 payment_service three_attempts order_created order_message
      (throw (error "Error" "down"))
      end
      start_0
      3
execute-DeadLettered_example =
    execute-DeadLettered ⦃H = calm⦄ T0 payment_service three_attempts order_created order_message
      (throw (error "Error" "down")) (surrounding-WholeNumbers 0)
      (event_publisher-Transports ⦃H = calm⦄)
      (event_publisher-Reliable ⦃H = calm⦄ (λ n m. ground arith))
      (λ v. (error "Error" "down", v, refl)) "order-1" keyed_order 3 (omega arith) refl 2 0 end
      start_0 no_retries refl

calm-WholeArithmetic : WholeArithmetic calm
calm-WholeArithmetic = record {
  eq_int = λ a b h k. refl;
  sub_int = λ a b h k. refl;
  mul_int = λ a b h. refl;
  pow_int = λ a b h. refl;
}

power : (i : ℕ) → suc i < 3 → (2 ^ i ≤ max_safe_integer) × (1000 * 2 ^ i ≤ max_safe_integer)
power zero h = (omega arith, omega arith)
power (suc zero) h = (omega arith, omega arith)
power (suc (suc i)) h = absurd (omega arith)

three_attempts-WholePolicy : WholePolicy ⦃H = calm⦄ three_attempts 3 1000 30000 2
three_attempts-WholePolicy = record {
  attempts = refl;
  delay = refl;
  cap = refl;
  multiplier = refl;
  attempts_small = omega arith;
  cap_small = omega arith;
  power_small = λ i h. (power i h).0;
  delay_small = λ i h. (power i h).1;
}

get_retry_backoff_schedule-geometric_example :
    (get_retry_backoff_schedule ⦃H = calm⦄ three_attempts ≡ geometric ⦃H = calm⦄ 1000 2 30000 0 2)
    × All
        (λ x. calm.le x (double 30000) ≡ true)
        (get_retry_backoff_schedule ⦃H = calm⦄ three_attempts)
get_retry_backoff_schedule-geometric_example =
    get_retry_backoff_schedule-geometric ⦃H = calm⦄ (surrounding-WholeNumbers 0)
      calm-WholeArithmetic three_attempts 3 1000 30000 2 three_attempts-WholePolicy 2 refl

resolve_kafka_brokers-IsBroker_example :
    All IsBroker (resolve_kafka_brokers ⦃H = calm⦄)
    × ((resolve_kafka_brokers ⦃H = calm⦄ ≡ [])
        ↔ All (λ p. not_blank p ≡ false) (split b',' (bootstrap_servers ⦃H = calm⦄)))
resolve_kafka_brokers-IsBroker_example = resolve_kafka_brokers-IsBroker ⦃H = calm⦄

attempts_by_default :
    (resolve_producer_retry_policy ⦃H = calm⦄ no_overrides).max_attempts ≡ double 3
unfolding resolve_producer_retry_policy resolve_retry_policy resolve_retry_number
attempts_by_default = refl

get_kafka_config-retries_example :
    ((get_kafka_client_config ⦃H = calm⦄ "order-service").retry.retries ≡ double 2)
    × ((get_kafka_consumer_config ⦃H = calm⦄ order_service).retry.retries ≡ double 3)
get_kafka_config-retries_example =
    get_kafka_config-retries ⦃H = calm⦄ (surrounding-WholeNumbers 0) calm-WholeArithmetic 3
      order_service "order-service" attempts_by_default (omega arith) (omega arith)

is_heard-is_listed_example :
    (is_listed stock_service order_created && not (is_heard stock_service order_created)) ≡ false
is_heard-is_listed_example = is_heard-is_listed stock_service order_created
