-- ===== src/Examples/Journeys.antt =====
-- Runs through several services, at concrete messages and orders.
use eventflow_kafka_microser.Prelude.{◌≡◌, refl, true, []}
use eventflow_kafka_microser.Js.Io.Laws.{OnOk}
use eventflow_kafka_microser.Js.Text.{
  not_blank, matches, trim, trim_start, trim_end, is_space, is_empty,
}
use eventflow_kafka_microser.Examples.Messages.{
  calm, T0, order_event, two_items, orders, table, start, start_0,
}
use eventflow_kafka_microser.Kafka.Publisher.Laws.{event_publisher-Transports}
use eventflow_kafka_microser.Payment.Order.{as_order_created, order_created_payload}
use eventflow_kafka_microser.Saga.Envelopes.{Generators}
use eventflow_kafka_microser.Saga.Payments.{Understood, process_payment-Understood}
use eventflow_kafka_microser.Saga.Orders.{Announced, create_order-Announced}
use eventflow_kafka_microser.Events.Validate.{is_uuid_text, is_iso_text}
use eventflow_kafka_microser.Js.Value.{get, prop}
use eventflow_kafka_microser.Payment.Service.{process_payment}
use eventflow_kafka_microser.Orders.Service.{create_order}

pub calm-Generators : Generators calm
unfolding is_uuid_text is_iso_text matches
calm-Generators = record { uuid_fits = λ n. refl; iso_fits = λ n. refl }

pub order-not_blank : not_blank order_event.payload.order_id ≡ true
unfolding as_order_created order_created_payload get prop not_blank trim trim_start trim_end
    is_space is_empty
order-not_blank = refl

process_payment-Understood_example :
    OnOk
      (Understood ⦃H = calm⦄ T0
        (event_publisher-Transports ⦃H = calm⦄)
        table
        order_event
        (start []))
      (process_payment ⦃H = calm⦄ T0 table order_event (start []))
process_payment-Understood_example =
    process_payment-Understood ⦃H = calm⦄ T0 (event_publisher-Transports ⦃H = calm⦄) table
      calm-Generators order_event (start []) order-not_blank

create_order-Announced_example :
    OnOk
      (Announced ⦃H = calm⦄ T0 (event_publisher-Transports ⦃H = calm⦄) orders two_items start_0)
      (create_order ⦃H = calm⦄ T0 orders two_items start_0)
create_order-Announced_example =
    create_order-Announced ⦃H = calm⦄ T0 (event_publisher-Transports ⦃H = calm⦄) orders
      calm-Generators two_items start_0
