-- ===== src/Examples/Messages.antt =====
-- Messages, orders, rows and states for the examples.
use eventflow_kafka_microser.Prelude.{
  refl, String, some, none, ◌∷◌, [], List, Option, eq_refl, if◌then◌else◌, ◌==◌, ℕ, ◌+◌,
}
use eventflow_kafka_microser.Js.Io.{World}
use eventflow_kafka_microser.Js.Errors.{Result, Thrown, validation}
use eventflow_kafka_microser.Js.Value.{
  Value, double, str, num, obj, arr, cons, nil, field, end, spread,
}
use eventflow_kafka_microser.Examples.Surroundings.{surrounding}
use eventflow_kafka_microser.Kafka.Publisher.{event_publisher, KafkaEventTransport}
use eventflow_kafka_microser.Payment.Idempotency.{
  ProcessedEvent, ProcessedEventRepository, ProcessedEventOutcome,
}
use eventflow_kafka_microser.Payment.Consumer.Redelivery.{FindsSaved}
use eventflow_kafka_microser.Payment.Consumer.{handle_order_events}
use eventflow_kafka_microser.Payment.Consumer.{Ack}
use eventflow_kafka_microser.Js.Host.{Host, Message}
use eventflow_kafka_microser.Payment.Order.{OrderCreated, as_order_created}
use eventflow_kafka_microser.Kafka.Retry.{RetryPolicyConfig}
use eventflow_kafka_microser.Orders.Service.{CreateOrderDto, OrderRepository}
use eventflow_kafka_microser.Kafka.Wire.{envelope_to_kafka_headers}
use eventflow_kafka_microser.Events.Types.{order_created}

abbrev pub unsupported : String
unsupported = "unsupported-event-type"

abbrev pub item : Value
item = obj (
    field "productId" (str "sku-1")
      (field "quantity" (num (double 2)) (field "unitPrice" (num (double 5)) end)))

abbrev pub payload : Value
payload = obj (
    field "orderId" (str "order-1") (
      field "customerId" (str "customer-1") (
        field "items" (arr (cons item nil))
          (field "totalAmount" (num (double 10)) (field "currency" (str "BRL") end)))))

abbrev pub order_message : Value
order_message = obj (
    field "eventId" (str "4c0f6f0e-9a3b-4d55-8a55-0d8a1b2c3d4e") (
      field "eventType" (str "order.created") (
        field "version" (str "1.0") (
          field "timestamp" (str "2026-01-02T03:04:05.000Z") (
            field "correlationId" (str "order-1")
              (field "source" (str "order-service") (field "payload" payload end)))))))

-- A table of rows, the newest first.
abbrev pub find_in : List ProcessedEvent → String → Option ProcessedEvent
find_in [] id = none
find_in (row ∷ rows) id = if row.inbound_event_id == id then some row else find_in rows id

abbrev pub table : ProcessedEventRepository (List ProcessedEvent)
table = record {
  find_by_event = find_in;
  find_approved = λ rows id. none;
  count_by_event = λ rows id. 0;
  count_approved = λ rows id. 0;
  save = λ rows row. row ∷ rows;
  save_error = λ n row. none;
}

abbrev pub start : {Db : Type 0} → Db → World Db
start db = record { sent = []; log = []; slept = []; tick = 0; db = db }

pub table-FindsSaved : FindsSaved table
table-FindsSaved db row = rw (eq_refl row.inbound_event_id) refl

abbrev pub consumed : Result Ack × World (List ProcessedEvent)
consumed =
    handle_order_events ⦃H = surrounding 0⦄ (event_publisher ⦃H = surrounding 0⦄) table
      order_message end (start [])

abbrev pub calm : Host
calm = surrounding 0

abbrev pub T0 : {Db : Type 0} → KafkaEventTransport Db
T0 = event_publisher ⦃H = calm⦄

abbrev pub start_0 : World ℕ
start_0 = start 0

abbrev pub order_event : OrderCreated
order_event = as_order_created order_message

abbrev pub three_attempts : RetryPolicyConfig
three_attempts = record {
  max_attempts = double 3;
  base_delay_ms = double 1000;
  max_delay_ms = double 30000;
  backoff_multiplier = double 2;
}

abbrev pub two_items : CreateOrderDto
two_items = record {
  customer_id = "customer-1";
  items = record { product_id = "sku-1"; quantity = double 2; unit_price = double 5 } ∷ [];
  currency = none;
}

-- A table that counts the rows that were saved.
abbrev pub orders : OrderRepository ℕ
orders = record {
  find = λ db id. none;
  save = λ db row. db + 1;
  save_error = λ n row. none;
  update_status = λ db id s. db;
  affected = λ db id. 0;
  update_error = λ n id. none;
}

abbrev pub record_of_order : Message
record_of_order = record {
  topic = "order.events";
  key = str "order-1";
  value = order_message;
  headers = end;
}

abbrev pub paid : ProcessedEvent
paid = record {
  inbound_event_id = "4c0f6f0e-9a3b-4d55-8a55-0d8a1b2c3d4e";
  event_type = order_created;
  order_id = "order-1";
  payment_id = none;
  outcome = ProcessedEventOutcome.approved;
}

abbrev pub keyed_record : Message
keyed_record = record {
  topic = "order.events";
  key = str "order-1";
  value = order_message;
  headers = spread (envelope_to_kafka_headers ⦃H = calm⦄ order_message) end;
}

abbrev pub empty_thrown : Thrown
empty_thrown =
    validation "Failed to deserialize Kafka message" ("Kafka message string is empty" ∷ [])

abbrev pub processed_message : Value
processed_message = obj (
    field "eventId" (str "4c0f6f0e-9a3b-4d55-8a55-0d8a1b2c3d4e") (
      field "eventType" (str "payment.processed") (
        field "version" (str "1.0") (
          field "timestamp" (str "2026-01-02T03:04:05.000Z") (
            field "correlationId" (str "order-1") (
              field "source" (str "payment-service") (
                field "payload"
                  (obj (
                    field "paymentId" (str "payment-1") (
                      field "orderId" (str "order-1") (
                        field "transactionId" (str "tx-1")
                          (field "processedAt" (str "2026-01-02T03:04:05.000Z") end)))))
                  end)))))))

abbrev pub failed_message : Value
failed_message = obj (
    field "eventId" (str "4c0f6f0e-9a3b-4d55-8a55-0d8a1b2c3d4e") (
      field "eventType" (str "payment.failed") (
        field "version" (str "1.0") (
          field "timestamp" (str "2026-01-02T03:04:05.000Z") (
            field "correlationId" (str "order-1") (
              field "source" (str "payment-service") (
                field "payload"
                  (obj (
                    field "paymentId" (str "payment-1") (
                      field "orderId" (str "order-1") (
                        field "reason" (str "declined")
                          (field "failedAt" (str "2026-01-02T03:04:05.000Z") end)))))
                  end)))))))

abbrev pub reserved_message : Value
reserved_message = obj (
    field "eventId" (str "4c0f6f0e-9a3b-4d55-8a55-0d8a1b2c3d4e") (
      field "eventType" (str "stock.reserved") (
        field "version" (str "1.0") (
          field "timestamp" (str "2026-01-02T03:04:05.000Z") (
            field "correlationId" (str "order-1") (
              field "source" (str "stock-service") (
                field "payload"
                  (obj (
                    field "orderId" (str "order-1") (
                      field "reservationId" (str "reservation-1") (
                        field "items" (arr nil)
                          (field "reservedAt" (str "2026-01-02T03:04:05.000Z") end)))))
                  end)))))))
