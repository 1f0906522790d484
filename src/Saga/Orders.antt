-- ===== src/Saga/Orders.antt =====
-- The `order.created` event of a new order, as payment-service reads it.
use eventflow_kafka_microser.Prelude.{
  ◌≡◌, refl, String, true, false, List, [], ◌∷◌, All, ◌≢◌, ◌↔◌, map, includes, arith, Bool, ℕ,
  subst, inl, ◌++◌, ◌∙◌, ap, sym,
}
use eventflow_kafka_microser.Js.Value.{
  Num, str, num, nil, get, prop, items_of, items_list, Value, undefined,
}
use eventflow_kafka_microser.Js.Host.{Host, int, Message}
use eventflow_kafka_microser.Orders.Service.{
  OrderEntity, item_value, order_payload, OrderRepository, CreateOrderDto, new_order,
  CreateOrderResponse, create_order,
}
use eventflow_kafka_microser.Payment.Order.{OrderItem}
use eventflow_kafka_microser.Js.Text.{not_blank, trim, trim_start, trim_end, is_space, is_empty}
use eventflow_kafka_microser.Events.Validate.Orders.{IsAmount, IsItem, IsOrderCreated}
use eventflow_kafka_microser.Events.Validate.{currencies}
use eventflow_kafka_microser.Events.Validate.Sound.{IsText}
use eventflow_kafka_microser.Saga.Envelopes.{
  built, Generators, deserialize_and_extract-built, built-IsEnvelope, uuid-not_blank_draw,
}
use eventflow_kafka_microser.Events.Types.{order_created}
use eventflow_kafka_microser.Events.Envelope.{envelope_object}
use eventflow_kafka_microser.Kafka.Consume.{parse_order_events_message, accepted}
use eventflow_kafka_microser.Js.Errors.{ok}
use eventflow_kafka_microser.Kafka.Consume.Pipelines.{parse_order_events_message-accepted_iff}
use eventflow_kafka_microser.Kafka.Publisher.{KafkaEventTransport}
use eventflow_kafka_microser.Kafka.Publisher.Laws.{Transports}
use eventflow_kafka_microser.Js.Io.{World}
use eventflow_kafka_microser.Js.Io.Laws.{OnOk, OnOk-map}
use eventflow_kafka_microser.Orders.Service.Laws.{Created, create_order-PublishedOrder}
use eventflow_kafka_microser.Events.Topics.{resolve_kafka_topic}

module _ ⦃H : Host⦄ where
  -- A finite number that is at least 0.
  abbrev pub IsFiniteAmount : Num → Type 0
  IsFiniteAmount x = (H.is_finite x ≡ true) × (H.le (int 0) x ≡ true)

  abbrev pub IsPayableItem : OrderItem → Type 0
  IsPayableItem i =
      (not_blank i.product_id ≡ true)
      × IsFiniteAmount i.quantity
      × (H.le i.quantity (int 0) ≡ false)
      × IsFiniteAmount i.unit_price

  -- An order that payment-service can read: none of its texts is blank, and its numbers are finite
  -- amounts.
  abbrev pub IsPayable : OrderEntity → Type 0
  IsPayable order =
      (not_blank order.id ≡ true)
      × (not_blank order.customer_id ≡ true)
      × (order.items ≢ [])
      × All IsPayableItem order.items
      × IsFiniteAmount order.total_amount
      × (includes currencies order.currency ≡ true)

  IsText-str : (p : String → Bool) (s : String) → IsText p (str s) ↔ (p s ≡ true)
  IsText-str p s = (λ (t, e, h). ground arith, λ h. (s, refl, h))

  IsAmount-num : (x : Num) → IsAmount (num x) ↔ IsFiniteAmount x
  IsAmount-num x = (λ (y, e, f, g). ground arith, λ (f, g). (x, refl, f, g))

  IsItem-value : (i : OrderItem) → IsItem (item_value i) ↔ IsPayableItem i
  unfolding get prop
  IsItem-value i = (
    λ h.
        let (y, e, f, g, l) = h.quantity in
        (
          (IsText-str _ _).0 h.product_id,
          (ground arith, ground arith),
          ground arith,
          (IsAmount-num _).0 h.unit_price,
        ),
    λ (a, (b, c), d, e). record {
      object = refl;
      product_id = (IsText-str _ _).1 a;
      quantity = (_, refl, b, c, d);
      unit_price = (IsAmount-num _).1 e;
    },
  )

  IsItem-values :
      (is : List OrderItem)
      → All IsItem (items_list (items_of (map item_value is))) ↔ All IsPayableItem is
  unfolding items_list items_of
  IsItem-values [] = (λ h. tt, λ h. tt)
  IsItem-values (i ∷ is) =
      let (to, from) = IsItem-values is in
      let (one, back) = IsItem-value i in (λ h. (one h.0, to h.1), λ h. (back h.0, from h.1))

  items-nil : (is : List OrderItem) → (items_of (map item_value is) ≢ nil) ↔ (is ≢ [])
  unfolding items_of
  items-nil [] = (λ h e. h refl, λ h e. h refl)
  items-nil (i ∷ is) = (λ h e. cc, λ h e. cc)

  order_payload-IsOrderCreated :
      (order : OrderEntity)
      → not_blank order.id ≡ true
      → IsOrderCreated (order_payload order) ↔ IsPayable order
  unfolding order_payload get prop
  order_payload-IsOrderCreated order b = (
    λ h.
        let (xs, e, ne, all) = h.items in
        let same : xs ≡ items_of (map item_value order.items) = cc in
        (
          b,
          (IsText-str _ _).0 h.customer_id,
          (items-nil order.items).0 (subst (λ l. l ≢ nil) same ne),
          (IsItem-values order.items).0 (subst (λ l. All IsItem (items_list l)) same all),
          (IsAmount-num _).0 h.total_amount,
          (IsText-str _ _).0 h.currency,
        ),
    λ (i, c, ne, all, t, u). record {
      object = refl;
      order_id = (_, refl, i);
      customer_id = (_, refl, c);
      items = (_, refl, (items-nil order.items).1 ne, (IsItem-values order.items).1 all);
      total_amount = (IsAmount-num _).1 t;
      currency = (_, refl, u);
    },
  )

  -- The envelope that `createOrder` builds for an order.
  abbrev pub order_event_of : OrderEntity → ℕ → ℕ → Value
  order_event_of order n k =
      built order_created n k order.id undefined "order-service" (order_payload order)

  pub order_event-accepted_iff :
      (G : Generators H) (order : OrderEntity) (n k : ℕ)
      → not_blank order.id ≡ true
      → (parse_order_events_message (order_event_of order n k)
          ≡ ok (accepted (order_event_of order n k)))
        ↔ IsPayable order
  unfolding not_blank trim trim_start trim_end is_space is_empty envelope_object get prop
      order_payload
  order_event-accepted_iff G order n k b =
      let v = order_event_of order n k in
      let (to, from) = parse_order_events_message-accepted_iff v v in
      let (there, back) = order_payload-IsOrderCreated order b in
      (
        λ h. there (to h).1.payload,
        λ p. from (
          deserialize_and_extract-built order_created n k order.id undefined "order-service" _,
          record {
            envelope =
                built-IsEnvelope G order_created n k order.id undefined "order-service" _ b refl
                  (inl refl) refl;
            payload = back p;
            correlated = (order.id, refl, refl);
          },
        ),
      )

module _ ⦃H : Host⦄ {Db : Type 0} (T : KafkaEventTransport Db) (L : Transports T)
    (R : OrderRepository Db) where
  -- One record was accepted, which payment-service reads exactly if the order is payable.
  abbrev pub Announced : CreateOrderDto → World Db → CreateOrderResponse → World Db → Type 0
  Announced dto w response w' =
      (n : ℕ) × (m : Message) × (w'.sent ≡ w.sent ++ m ∷ [])
      × (m.topic ≡ resolve_kafka_topic order_created)
      × (m.key ≡ str (H.uuid n))
      × ((parse_order_events_message m.value ≡ ok (accepted m.value))
          ↔ IsPayable (new_order (H.uuid n) dto))

  Created-Announced :
      (G : Generators H) (dto : CreateOrderDto) (w : World Db) (response : CreateOrderResponse)
      (w' : World Db)
      → Created T L R dto w response w'
      → Announced dto w response w'
  unfolding new_order
  Created-Announced G dto w response w' (n, u, (s, d), (i, m, (t, k, a, b, e, v), x, y, r)) = (
    n,
    m,
    x ∙ ap (λ l. l ++ m ∷ []) s,
    t,
    k,
    subst
        (λ x.
          (parse_order_events_message x ≡ ok (accepted x)) ↔ IsPayable (new_order (H.uuid n) dto))
        (sym v)
        (order_event-accepted_iff G (new_order (H.uuid n) dto) a b (uuid-not_blank_draw G n)),
  )

  -- If `createOrder` returns, it has published one record on `order.events`, keyed by the new order,
  -- and payment-service's `parseOrderEventsMessage` accepts that record exactly if neither the
  -- customer nor a product is blank, there is a line, each quantity is finite and above 0, each price
  -- and the total are finite and at least 0, and the currency is one of the three. The transport keeps
  -- its interface, and `randomUUID` and `toISOString` give texts of their documented formats.
  pub create_order-Announced :
      (G : Generators H) (dto : CreateOrderDto) (w : World Db)
      → OnOk (Announced dto w) (create_order T R dto w)
  create_order-Announced G dto w =
      OnOk-map (Created T L R dto w) (Announced dto w) _
        (λ r w' h. Created-Announced G dto w r w' h) (create_order-PublishedOrder T L R dto w)
