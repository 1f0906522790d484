-- ===== src/Orders/Service/Laws.antt =====
-- What the creation of an order stores and publishes.
use eventflow_kafka_microser.Prelude.{
  ◌≡◌, refl, ap, ◌∙◌, ◌++◌, ◌∷◌, [], String, Option, none, some, ◌+◌, ℕ,
}
use eventflow_kafka_microser.Js.Io.{World, ◌>>=◌, draw, attempt}
use eventflow_kafka_microser.Js.Io.Laws.{OnOk, >>=-OnOk, OnOk-ok, attempt-OnOk, OnOk-map}
use eventflow_kafka_microser.Js.Host.{Host, Message}
use eventflow_kafka_microser.Js.Errors.{ok, Thrown}
use eventflow_kafka_microser.Js.Value.{Value, get, str, end, prop, undefined}
use eventflow_kafka_microser.Kafka.Publisher.Laws.{Transports, Accepted}
use eventflow_kafka_microser.Kafka.Publisher.Keys.{event_message-keyed}
use eventflow_kafka_microser.Events.Types.{order_created, event_name}
use eventflow_kafka_microser.Events.Topics.{resolve_kafka_topic}
use eventflow_kafka_microser.Orders.Service.{
  OrderRepository, OrderEntity, CreateOrderDto, CreateOrderResponse, create_order, publish_order,
  mark_failed, save_order, answer, with_event_id, new_order, order_payload,
  to_create_order_response, has_published_event_id,
}
use eventflow_kafka_microser.Kafka.Publisher.{KafkaEventTransport, event_message}
use eventflow_kafka_microser.Events.Envelope.{
  create_event_envelope, event_params, envelope_object, event_schema_version,
}

module _ ⦃H : Host⦄ {Db : Type 0} (T : KafkaEventTransport Db) (L : Transports T)
    (R : OrderRepository Db) where
  -- The row was saved, and nothing was sent.
  abbrev Saved : OrderEntity → World Db → Unit {0} → World Db → Type 0
  Saved row w a w' = (w'.sent ≡ w.sent) × (w'.db ≡ R.save w.db row)

  answer-Saved :
      (row : OrderEntity) (refused : Option Thrown) (w : World Db)
      → OnOk (Saved row w) (answer T R (λ db. R.save db row) refused w)
  answer-Saved row none w = (refl, refl)
  answer-Saved row (some e) w = tt

  save_order-Saved : (row : OrderEntity) (w : World Db) → OnOk (Saved row w) (save_order T R row w)
  unfolding ◌>>=◌ save_order draw
  save_order-Saved row w =
      answer-Saved row (R.save_error w.tick row) (record w { tick = w.tick + 1 })

  -- The record that announces the order: its whole envelope, in which the id and the time are drawn.
  abbrev pub Announces : OrderEntity → String → Message → Type 0
  Announces order event_id m =
      (m.topic ≡ resolve_kafka_topic order_created)
      × (m.key ≡ str order.id)
      × (n k : ℕ) × (event_id ≡ H.uuid n)
      × (m.value
          ≡ envelope_object (str (H.uuid n)) (str (event_name order_created))
              (str event_schema_version) (str (H.iso k)) (str order.id) undefined
              (str "order-service") (order_payload order))

  -- The order was stored with the event's id, the event was published, and the answer tells of both.
  abbrev pub PublishedOrder : OrderEntity → World Db → CreateOrderResponse → World Db → Type 0
  PublishedOrder order w response w' =
      (event_id : String) × (m : Message) × Announces order event_id m
      × (w'.sent ≡ w.sent ++ m ∷ [])
      × (w'.db ≡ R.save w.db (with_event_id order event_id))
      × (response ≡ to_create_order_response (with_event_id order event_id) (some event_id))

  -- The order's event, as `createEventEnvelope` builds it at a state.
  abbrev order_envelope : OrderEntity → World Db → Value
  order_envelope order w =
      envelope_object (str (H.uuid w.tick)) (str (event_name order_created))
        (str event_schema_version) (str (H.iso (w.tick + 1))) (str order.id) undefined
        (str "order-service") (order_payload order)

  announced :
      (order : OrderEntity) (w : World Db) (m : Message)
      → event_message order_created (order_envelope order w) end ≡ ok m
      → Announces order (H.uuid w.tick) m
  unfolding order_payload envelope_object get prop
  announced order w m h =
      let (topic, value, key) =
        event_message-keyed order_created (order_envelope order w) end m h in
      (topic, key, w.tick, w.tick + 1, refl, value)

  -- `order.created` was published from here.
  abbrev Sent : Value → World Db → Unit {0} → World Db → Type 0
  Sent v w a w' = (m : Message) × (event_message order_created v end ≡ ok m) × Accepted m w w'

  -- The `catch` block throws in the end, so what returns was published.
  attempt-Sent :
      (order : OrderEntity) (v : Value) (w : World Db)
      → OnOk (Sent v w) (attempt (T.publish order_created v end) (λ e. mark_failed T R order) w)
  unfolding mark_failed
  attempt-Sent order v w =
      attempt-OnOk (Sent v w) (T.publish order_created v end) _ w
        (λ a w' h. L.publish-ok order_created v end w w' h)
        (λ e u h. >>=-OnOk (Sent v w) (save_order T R _) _ u (λ a x i. tt))

  publish_order-PublishedOrder :
      (order : OrderEntity) (w : World Db)
      → OnOk (PublishedOrder order w) (publish_order T R order w)
  unfolding ◌>>=◌ publish_order create_event_envelope event_params draw envelope_object get prop
  publish_order-PublishedOrder order w =
      >>=-OnOk (PublishedOrder order w) (save_order T R _) _ _ (λ a u h.
        let (s, d) =
          OnOk-ok (Saved (with_event_id order (H.uuid w.tick)) (record w { tick = w.tick + 1 + 1 }))
            _ (save_order-Saved _ _) h in
        >>=-OnOk (PublishedOrder order w)
          (attempt (T.publish order_created (order_envelope order w) end) _) _ u
          (λ b w' i.
            let (m, q, k) =
              OnOk-ok (Sent (order_envelope order w) u) _
                (attempt-Sent _ (order_envelope order w) u) i in
            (
              H.uuid w.tick,
              m,
              announced order w m q,
              k.0 ∙ ap (λ l. l ++ m ∷ []) s,
              k.1 ∙ d,
              refl,
            )))

  -- A new order was stored without its event's id, and then published.
  abbrev pub Created : CreateOrderDto → World Db → CreateOrderResponse → World Db → Type 0
  Created dto w response w' =
      (n : ℕ) × (u : World Db) × Saved (new_order (H.uuid n) dto) w tt u
      × PublishedOrder (new_order (H.uuid n) dto) u response w'

  -- With a transport that keeps its interface: if `createOrder` returns, a new order with the customer, the items, the currency and the total of
  -- the request was stored, first without and then with the id of its event; after both,
  -- `order.created` was published once, with that id, the order's id as key and correlation id, and
  -- the stored order as payload; and the answer names the order and the event. A request whose event
  -- could not be published never returns.
  pub create_order-PublishedOrder :
      (dto : CreateOrderDto) (w : World Db) → OnOk (Created dto w) (create_order T R dto w)
  unfolding ◌>>=◌ create_order draw new_order has_published_event_id
  create_order-PublishedOrder dto w = >>=-OnOk _ (save_order T R _) _ _ (λ a u h.
      OnOk-map (PublishedOrder (new_order (H.uuid w.tick) dto) u) (Created dto w) _
        (λ r w' k. (
          w.tick,
          u,
          OnOk-ok (Saved (new_order (H.uuid w.tick) dto) (record w { tick = w.tick + 1 })) _
              (save_order-Saved _ _) h,
          k,
        ))
        (publish_order-PublishedOrder _ u))
