-- ===== src/Examples/Totals.antt =====
-- Services and retries that return, at concrete messages and orders.
use eventflow_kafka_microser.Prelude.{◌≡◌, refl, ◌==◌, false, [], arith, some, List, none}
use eventflow_kafka_microser.Js.Io.{throw}
use eventflow_kafka_microser.Js.Io.Returns.{Returns, Throws}
use eventflow_kafka_microser.Js.Errors.{ok, error}
use eventflow_kafka_microser.Js.Value.{end, get, prop}
use eventflow_kafka_microser.Events.Types.{order_created}
use eventflow_kafka_microser.Examples.Messages.{
  calm, T0, order_message, order_event, three_attempts, two_items, orders, table, start, start_0,
}
use eventflow_kafka_microser.Kafka.Publisher.Reliable.{Reliable, event_publisher-Reliable}
use eventflow_kafka_microser.Kafka.Wire.{resolve_partition_key, get_partition_key_from_payload}
use eventflow_kafka_microser.Payment.Order.{as_order_created, order_created_payload}
use eventflow_kafka_microser.Kafka.Retry.Executor.{execute}
use eventflow_kafka_microser.Orders.Service.{create_order}
use eventflow_kafka_microser.Payment.Service.{process_payment}
use eventflow_kafka_microser.Events.Catalog.{payment_service, EventCatalogEntry, get_catalog_entry}
use eventflow_kafka_microser.Orders.Service.Total.{create_order-Returns}
use eventflow_kafka_microser.Kafka.Retry.Executor.Total.{execute-Returns}
use eventflow_kafka_microser.Payment.Service.Total.{process_payment-Returns}
use eventflow_kafka_microser.Payment.Simulator.{timeout_scenario}
use eventflow_kafka_microser.Events.Topics.{resolve_kafka_topic, to_dlq_topic}
use eventflow_kafka_microser.Events.Catalog.Laws.{get_catalog_entry-resolve_kafka_topic}
use eventflow_kafka_microser.Payment.Idempotency.{ProcessedEventRepository, ProcessedEvent}
use eventflow_kafka_microser.Payment.Service.Refused.{Unrecorded, process_payment-Unrecorded}
use eventflow_kafka_microser.Kafka.Publisher.Laws.{event_publisher-Transports}

pub reliable : {Db : Type 0} → Reliable ⦃H = calm⦄ {Db = Db} T0
reliable = event_publisher-Reliable ⦃H = calm⦄ (λ n m. ground arith)

keyed_message : resolve_partition_key order_message ≡ ok "order-1"
unfolding resolve_partition_key get_partition_key_from_payload get prop
keyed_message = refl

order_event-id : (order_event.payload.order_id == "") ≡ false
unfolding as_order_created order_created_payload get prop
order_event-id = refl

execute-Returns_example : Returns (
    execute ⦃H = calm⦄ T0 payment_service three_attempts order_created order_message end
      (throw (error "Error" "down"))
      start_0)
execute-Returns_example =
    execute-Returns ⦃H = calm⦄ T0 reliable payment_service three_attempts order_created
      order_message end (throw (error "Error" "down")) "order-1" start_0 keyed_message

create_order-Returns_example : Returns (create_order ⦃H = calm⦄ T0 orders two_items start_0)
create_order-Returns_example =
    create_order-Returns ⦃H = calm⦄ T0 reliable orders (λ n row. refl) (λ n. refl) two_items start_0

process_payment-Returns_example :
    Returns (process_payment ⦃H = calm⦄ T0 table order_event (start []))
process_payment-Returns_example =
    process_payment-Returns ⦃H = calm⦄ T0 reliable table order_event order_event-id (λ n row. refl)
      (λ n. (timeout_scenario, refl)) (start [])

get_catalog_entry-resolve_kafka_topic_example :
    (e : EventCatalogEntry) × (get_catalog_entry order_created ≡ some e)
    × (e.event_type ≡ order_created)
    × (e.topic ≡ resolve_kafka_topic order_created)
    × (e.dlq_topic ≡ to_dlq_topic (resolve_kafka_topic order_created))
get_catalog_entry-resolve_kafka_topic_example = get_catalog_entry-resolve_kafka_topic order_created

-- A table that refuses every row.
abbrev full_table : ProcessedEventRepository (List ProcessedEvent)
full_table = record {
  find_by_event = λ rows id. none;
  find_approved = λ rows id. none;
  count_by_event = λ rows id. 0;
  count_approved = λ rows id. 0;
  save = λ rows row. rows;
  save_error = λ n row. some (error "QueryFailedError" "database is full");
}

process_payment-Unrecorded_example :
    Throws
      (Unrecorded ⦃H = calm⦄ T0
        (event_publisher-Transports ⦃H = calm⦄)
        reliable
        full_table
        order_event
        order_event-id
        (λ n row. (error "QueryFailedError" "database is full", refl))
        (λ n. (timeout_scenario, refl))
        (start []))
      (process_payment ⦃H = calm⦄ T0 full_table order_event (start []))
process_payment-Unrecorded_example =
    process_payment-Unrecorded ⦃H = calm⦄ T0 (event_publisher-Transports ⦃H = calm⦄) reliable
      full_table order_event order_event-id
      (λ n row. (error "QueryFailedError" "database is full", refl)) (λ n. (timeout_scenario, refl))
      (start [])
