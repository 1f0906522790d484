-- ===== src/Examples/Ordered.antt =====
-- An order that goes its whole way.
use eventflow_kafka_microser.Prelude.{◌≡◌, refl, [], some, arith, String, ℕ}
use eventflow_kafka_microser.Payment.Idempotency.{check, IdempotencyCheckResult}
use eventflow_kafka_microser.Js.Io.{◌>>=◌, attempt, World, draw, emit_kafka_event}
use eventflow_kafka_microser.Examples.Completions.{idle}
use eventflow_kafka_microser.Js.Errors.{Result, ok}
use eventflow_kafka_microser.Orders.Service.{
  CreateOrderResponse, new_order, pending, total_from, create_order, publish_order, save_order,
  has_published_event_id, order_payload, to_create_order_response,
}
use eventflow_kafka_microser.Examples.Messages.{table, calm, two_items, T0, orders, start_0, start}
use eventflow_kafka_microser.Saga.Journey.{Journey, create_order-Journey}
use eventflow_kafka_microser.Js.Value.{double, end, get, prop}
use eventflow_kafka_microser.Js.Text.{not_blank, trim, trim_start, trim_end, is_space, is_empty}
use eventflow_kafka_microser.Examples.Journeys.{calm-Generators}
use eventflow_kafka_microser.Examples.Handlers.{transports, known_orders}
use eventflow_kafka_microser.Examples.Totals.{reliable}
use eventflow_kafka_microser.Payment.Simulator.{timeout_scenario}
use eventflow_kafka_microser.Events.Envelope.{create_event_envelope, event_params, envelope_object}
use eventflow_kafka_microser.Saga.Orders.{IsPayable}
use eventflow_kafka_microser.Kafka.Publisher.{publish, event_message}
use eventflow_kafka_microser.Kafka.Wire.{resolve_partition_key, get_partition_key_from_payload}

abbrev drawn : String
drawn = "4c0f6f0e-9a3b-4d55-8a55-0d8a1b2c3d4e"

abbrev ordered : Result CreateOrderResponse × World ℕ
ordered = create_order ⦃H = calm⦄ T0 orders two_items start_0

abbrev answered : CreateOrderResponse
answered = record {
  order_id = drawn;
  status = pending;
  total_amount = total_from ⦃H = calm⦄ (double 0) two_items.items;
  currency = "BRL";
  event_id = some drawn;
  correlation_id = drawn;
}

ordered-answered : ordered ≡ (ok answered, ordered.1)
unfolding ◌>>=◌ attempt draw emit_kafka_event create_order publish_order save_order new_order
    total_from has_published_event_id create_event_envelope event_params envelope_object
    order_payload to_create_order_response publish event_message resolve_partition_key
    get_partition_key_from_payload get prop
ordered-answered = refl

answered-IsPayable : IsPayable ⦃H = calm⦄ (new_order ⦃H = calm⦄ answered.order_id two_items)
unfolding new_order total_from not_blank trim trim_start trim_end is_space is_empty
answered-IsPayable = (
  refl,
  refl,
  λ e. ground arith,
  ((refl, (refl, refl), refl, (refl, refl)), tt),
  (refl, refl),
  refl,
)

answered-new : check table [] drawn answered.order_id ≡ IdempotencyCheckResult.new
unfolding check
answered-new = refl

create_order-Journey_example :
    Journey ⦃H = calm⦄ calm-Generators T0 transports reliable table
      (λ n row. refl)
      (λ n. (timeout_scenario, refl))
      idle
      idle
      idle
      known_orders
      (λ n id. refl)
      end
      T0
      transports
      orders
      (start [])
      start_0
      ordered.1
create_order-Journey_example =
    create_order-Journey ⦃H = calm⦄ calm-Generators T0 transports reliable table (λ n row. refl)
      (λ n. (timeout_scenario, refl)) idle idle idle known_orders (λ n id. refl) end T0 transports
      orders two_items start_0 ordered.1 answered drawn (start []) ordered-answered refl
      answered-IsPayable refl answered-new
