-- ===== src/Examples/Completions.antt =====
-- An order that is paid and completed, and a failure that the dlq-service reads.
use eventflow_kafka_microser.Prelude.{refl, [], ℕ}
use eventflow_kafka_microser.Examples.Journeys.{calm-Generators, order-not_blank}
use eventflow_kafka_microser.Saga.Completion.{Receiver, Concluded, process_payment-Concluded}
use eventflow_kafka_microser.Js.Io.Laws.{OnOk}
use eventflow_kafka_microser.Examples.Messages.{
  calm, T0, table, order_event, three_attempts, start_0, start, reserved_message,
}
use eventflow_kafka_microser.Dlq.Recorded.{Recorded, send_to_dlq-Recorded}
use eventflow_kafka_microser.Examples.Handlers.{known_orders, transports}
use eventflow_kafka_microser.Examples.Totals.{reliable}
use eventflow_kafka_microser.Events.Catalog.{notification_service}
use eventflow_kafka_microser.Js.Value.{end, double}
use eventflow_kafka_microser.Events.Types.{stock_reserved}
use eventflow_kafka_microser.Payment.Service.{process_payment}
use eventflow_kafka_microser.Js.Errors.{error}
use eventflow_kafka_microser.Kafka.Retry.Executor.{send_to_dlq}

-- A service that starts with nothing.
abbrev pub idle : Receiver ⦃H = calm⦄ ℕ
idle = record {
  transport = T0;
  laws = transports;
  reliable = reliable;
  headers = end;
  state = start_0;
}

process_payment-Concluded_example :
    OnOk
      (Concluded ⦃H = calm⦄ idle idle idle known_orders T0 transports table order_event (start []))
      (process_payment ⦃H = calm⦄ T0 table order_event (start []))
process_payment-Concluded_example =
    process_payment-Concluded ⦃H = calm⦄ idle idle idle known_orders T0 transports table
      calm-Generators (λ n id. refl) order_event (start []) order-not_blank refl

send_to_dlq-Recorded_example :
    OnOk
      (Recorded ⦃H = calm⦄ T0 transports notification_service three_attempts stock_reserved
        reserved_message end
        (error "Error" "down")
        (double 3)
        start_0)
      (send_to_dlq ⦃H = calm⦄ T0 notification_service three_attempts stock_reserved reserved_message
        end
        (error "Error" "down")
        (double 3)
        start_0)
send_to_dlq-Recorded_example =
    send_to_dlq-Recorded ⦃H = calm⦄ T0 transports notification_service three_attempts stock_reserved
      reserved_message end (error "Error" "down") (double 3) start_0
