-- ===== src/Examples/Handlers.antt =====
-- The handlers of the services at concrete messages.
use eventflow_kafka_microser.Prelude.{none, ℕ, ◌+◌}
use eventflow_kafka_microser.Js.Io.Laws.{OnOk}
use eventflow_kafka_microser.Js.Value.{end}
use eventflow_kafka_microser.Examples.Messages.{
  calm, T0, processed_message, failed_message, start_0,
}
use eventflow_kafka_microser.Kafka.Publisher.Laws.{event_publisher-Transports, Transports}
use eventflow_kafka_microser.Orders.Service.{OrderRepository, cancelled, OrderStatus, completed}
use eventflow_kafka_microser.Stock.Laws.{
  Reserved, Released, handle_payment_events-Reserved, handle_order_cancelled_event-Released,
}
use eventflow_kafka_microser.Stock
use eventflow_kafka_microser.Orders.Consumer
use eventflow_kafka_microser.Stock.{handle_order_cancelled_event}
use eventflow_kafka_microser.Notification.{handle_stock_reserved_event}
use eventflow_kafka_microser.Notification.Laws.{Notified, handle_stock_reserved_event-Notified}
use eventflow_kafka_microser.Orders.Consumer.{
  handle_stock_released, handle_stock_failed, handle_notification_sent,
}
use eventflow_kafka_microser.Orders.Consumer.Laws.{
  Projected, projections-Projected, Failed, handle_payment_events-Failed,
}
use eventflow_kafka_microser.Events.Types.{stock_released, stock_failed, notification_sent}

-- A table in which each order is found, and which counts the updates.
abbrev pub known_orders : OrderRepository ℕ
known_orders = record {
  find = λ db id. none;
  save = λ db row. db + 1;
  save_error = λ n row. none;
  update_status = λ db id s. db + 1;
  affected = λ db id. 1;
  update_error = λ n id. none;
}

pub transports : {Db : Type 0} → Transports ⦃H = calm⦄ {Db = Db} T0
transports = event_publisher-Transports ⦃H = calm⦄

handle_payment_events-Reserved_example :
    OnOk
      (Reserved ⦃H = calm⦄ T0 transports processed_message end start_0)
      (Stock.handle_payment_events ⦃H = calm⦄ T0 processed_message end start_0)
handle_payment_events-Reserved_example =
    handle_payment_events-Reserved ⦃H = calm⦄ T0 transports processed_message end start_0

handle_order_cancelled_event-Released_example :
    OnOk
      (Released ⦃H = calm⦄ T0 transports processed_message end start_0)
      (handle_order_cancelled_event ⦃H = calm⦄ T0 processed_message end start_0)
handle_order_cancelled_event-Released_example =
    handle_order_cancelled_event-Released ⦃H = calm⦄ T0 transports processed_message end start_0

handle_stock_reserved_event-Notified_example :
    OnOk
      (Notified ⦃H = calm⦄ T0 transports processed_message end start_0)
      (handle_stock_reserved_event ⦃H = calm⦄ T0 processed_message end start_0)
handle_stock_reserved_event-Notified_example =
    handle_stock_reserved_event-Notified ⦃H = calm⦄ T0 transports processed_message end start_0

projections-Projected_example :
    OnOk
      (Projected ⦃H = calm⦄ T0 transports known_orders stock_released cancelled "reason"
        processed_message end start_0)
      (handle_stock_released ⦃H = calm⦄ T0 known_orders processed_message end start_0)
    × OnOk
        (Projected ⦃H = calm⦄ T0 transports known_orders stock_failed OrderStatus.failed "reason"
          processed_message end start_0)
        (handle_stock_failed ⦃H = calm⦄ T0 known_orders processed_message end start_0)
    × OnOk
        (Projected ⦃H = calm⦄ T0 transports known_orders notification_sent completed "channel"
          processed_message end start_0)
        (handle_notification_sent ⦃H = calm⦄ T0 known_orders processed_message end start_0)
projections-Projected_example =
    projections-Projected ⦃H = calm⦄ T0 transports known_orders processed_message end start_0

handle_payment_events-Failed_example :
    OnOk
      (Failed ⦃H = calm⦄ T0 transports known_orders failed_message end start_0)
      (Consumer.handle_payment_events ⦃H = calm⦄ T0 known_orders failed_message end start_0)
handle_payment_events-Failed_example =
    handle_payment_events-Failed ⦃H = calm⦄ T0 transports known_orders failed_message end start_0
