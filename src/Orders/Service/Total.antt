-- ===== src/Orders/Service/Total.antt =====
-- The creation of an order returns where nothing refuses it.
use eventflow_kafka_microser.Prelude.{◌≡◌, refl, none, ◌==◌, false, ℕ}
use eventflow_kafka_microser.Js.Io.{World, ◌>>=◌, draw, attempt}
use eventflow_kafka_microser.Js.Io.Returns.{Returns, >>=-Returns, attempt-returned}
use eventflow_kafka_microser.Js.Host.{Host}
use eventflow_kafka_microser.Js.Value.{Value, str, end, get, prop, undefined}
use eventflow_kafka_microser.Kafka.Publisher.Reliable.{Reliable}
use eventflow_kafka_microser.Orders.Service.{
  OrderRepository, OrderEntity, CreateOrderDto, create_order, publish_order, save_order, new_order,
  has_published_event_id, order_payload,
}
use eventflow_kafka_microser.Kafka.Publisher.{KafkaEventTransport}
use eventflow_kafka_microser.Events.Envelope.{create_event_envelope, event_params, envelope_object}
use eventflow_kafka_microser.Kafka.Wire.{resolve_partition_key, get_partition_key_from_payload}
use eventflow_kafka_microser.Events.Types.{order_created}
use eventflow_kafka_microser.Js.Errors.{ok}
use eventflow_kafka_microser.Kafka.Retry.Executor.Total.{event_message-exists}

module _ ⦃H : Host⦄ {Db : Type 0} (T : KafkaEventTransport Db) (L : Reliable T)
    (R : OrderRepository Db) (saves : (n : ℕ) (row : OrderEntity) → R.save_error n row ≡ none) where
  save_order-Returns : (row : OrderEntity) (w : World Db) → Returns (save_order T R row w)
  unfolding ◌>>=◌ save_order draw
  save_order-Returns row w = rw (saves w.tick row) tt

  order_key :
      (order : OrderEntity) (a b c d : Value)
      → (order.id == "") ≡ false
      → resolve_partition_key (
          envelope_object a b c d
            (str order.id)
            undefined
            (str "order-service")
            (order_payload order))
        ≡ ok order.id
  unfolding resolve_partition_key get_partition_key_from_payload envelope_object order_payload get
      prop
  order_key order a b c d e = rw e refl

  publish_order-Returns :
      (order : OrderEntity) (w : World Db)
      → (order.id == "") ≡ false
      → Returns (publish_order T R order w)
  unfolding ◌>>=◌ publish_order create_event_envelope event_params draw get prop
  publish_order-Returns order w e =
      >>=-Returns (save_order T R _) _ _ (save_order-Returns _ _) (λ a u.
        >>=-Returns (attempt (T.publish order_created _ end) _) _ u
          (let (m, q) =
              event_message-exists order_created _ end order.id (order_key order _ _ _ _ e) in
            attempt-returned (T.publish order_created _ end) _ u
              (L.publish-Returns order_created _ end m u q))
          (λ b v. tt))

  -- With a table that saves every row, a transport that publishes and ids that are not empty,
  -- `createOrder` returns for every request.
  pub create_order-Returns :
      (ids : (n : ℕ) → (H.uuid n == "") ≡ false) (dto : CreateOrderDto) (w : World Db)
      → Returns (create_order T R dto w)
  unfolding ◌>>=◌ create_order draw new_order has_published_event_id
  create_order-Returns ids dto w =
      >>=-Returns (save_order T R _) _ _ (save_order-Returns _ _)
        (λ a u. publish_order-Returns _ u (ids w.tick))
