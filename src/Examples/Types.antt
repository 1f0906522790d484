-- ===== src/Examples/Types.antt =====
-- The interfaces of the payloads, at concrete messages.
use eventflow_kafka_microser.Prelude.{◌≡◌, refl, [], true, includes, List}
use eventflow_kafka_microser.Stock.{handle_order_cancelled, handle_payment_processed}
use eventflow_kafka_microser.Js.Value.{Value, get, obj, prop, field, str, end}
use eventflow_kafka_microser.Payment.Order.{as_order_created, order_created_payload}
use eventflow_kafka_microser.Events.Payloads.Asserted.{Asserts, validators-Asserts}
use eventflow_kafka_microser.Js.Io.Laws.{OnOk}
use eventflow_kafka_microser.Events.Validate.{
  validate_order_created_payload, validate_payment_processed_payload,
  validate_payment_failed_payload,
}
use eventflow_kafka_microser.Saga.Typed.{Types, Notes, services-Types}
use eventflow_kafka_microser.Examples.Messages.{
  calm, payload, order_event, start, T0, table, processed_message, reserved_message,
}
use eventflow_kafka_microser.Events.Payloads.{currency_codes, conforms, event_payload_map}
use eventflow_kafka_microser.Events.Types.{
  payment_requested, order_created, payment_processed, payment_failed, stock_reserved,
  stock_released,
}
use eventflow_kafka_microser.Payment.Service.{
  publish_payment_requested, publish_payment_processed, publish_payment_failed,
}
use eventflow_kafka_microser.Examples.Handlers.{transports}
use eventflow_kafka_microser.Notification.{handle_stock_reserved}
use eventflow_kafka_microser.Js.Io.{World}
use eventflow_kafka_microser.Payment.Idempotency.{ProcessedEvent}

abbrev cancelled_message : Value
cancelled_message = obj (
    field "eventId" (str "4c0f6f0e-9a3b-4d55-8a55-0d8a1b2c3d4e") (
      field "eventType" (str "order.cancelled") (
        field "version" (str "1.0") (
          field "timestamp" (str "2026-01-02T03:04:05.000Z") (
            field "correlationId" (str "order-1") (
              field "source" (str "order-service") (
                field "payload"
                  (obj (
                    field "orderId" (str "order-1") (
                      field "reason" (str "changed my mind")
                        (field "cancelledBy" (str "customer") end))))
                  end)))))))

abbrev unpaid : World (List ProcessedEvent)
unpaid = start []

order_event-currency : includes currency_codes order_event.payload.currency ≡ true
unfolding as_order_created order_created_payload get prop
order_event-currency = refl

processed_order : get "orderId" (get "payload" processed_message) ≡ str "order-1"
unfolding get prop
processed_order = refl

cancelled_order : get "orderId" (get "payload" cancelled_message) ≡ str "order-1"
unfolding get prop
cancelled_order = refl

cancelled_reason : get "reason" (get "payload" cancelled_message) ≡ str "changed my mind"
unfolding get prop
cancelled_reason = refl

reserved_order : get "orderId" (get "payload" reserved_message) ≡ str "order-1"
unfolding get prop
reserved_order = refl

validators-Asserts_example :
    Asserts
      (validate_order_created_payload ⦃H = calm⦄ payload)
      (conforms (event_payload_map order_created) payload)
    × Asserts
        (validate_payment_processed_payload payload)
        (conforms (event_payload_map payment_processed) payload)
    × Asserts
        (validate_payment_failed_payload payload)
        (conforms (event_payload_map payment_failed) payload)
validators-Asserts_example = validators-Asserts ⦃H = calm⦄ payload

services-Types_example :
    OnOk
      (λ (v : Value) w'. Types ⦃H = calm⦄ payment_requested unpaid tt w')
      (publish_payment_requested ⦃H = calm⦄ T0 table order_event "payment-1" unpaid)
    × OnOk (Types ⦃H = calm⦄ payment_processed unpaid) (
        publish_payment_processed ⦃H = calm⦄ T0 table "payment-1" order_event.payload.order_id
          "tx-1"
          (str "cause")
          unpaid)
    × OnOk (Types ⦃H = calm⦄ payment_failed unpaid) (
        publish_payment_failed ⦃H = calm⦄ T0 table "payment-1" order_event.payload.order_id "tx-1"
          (str "cause")
          unpaid)
    × OnOk
        (Types ⦃H = calm⦄ stock_reserved unpaid)
        (handle_payment_processed ⦃H = calm⦄ T0 processed_message unpaid)
    × OnOk
        (Types ⦃H = calm⦄ stock_released unpaid)
        (handle_order_cancelled ⦃H = calm⦄ T0 cancelled_message unpaid)
    × OnOk
        (Notes ⦃H = calm⦄ T0 transports unpaid)
        (handle_stock_reserved ⦃H = calm⦄ T0 reserved_message unpaid)
services-Types_example =
    services-Types ⦃H = calm⦄ T0 transports table order_event "payment-1" "tx-1" (str "cause")
      processed_message cancelled_message reserved_message "order-1" "order-1" "changed my mind"
      "order-1" unpaid order_event-currency processed_order cancelled_order cancelled_reason
      reserved_order
