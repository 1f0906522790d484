-- ===== src/Orders/Service.antt =====
-- services/order-service/src/orders: orders.service.ts, the entities and the body of the request.
-- The tables are those of TypeORM, which is a parameter: `OrderRepository`.
pub mod Laws
pub mod Total
use eventflow_kafka_microser.Js.Io.{◌>>=◌, ◌>>◌, throw, Io, modify, draw, gets, pure, attempt}
use eventflow_kafka_microser.Prelude.{
  String, Option, List, ℕ, Bool, some, none, false, ◌∷◌, not, [], ◌==◌, if◌then◌else◌, eqb, map,
  concat,
}
use eventflow_kafka_microser.Payment.Order.{OrderItem, text_of}
use eventflow_kafka_microser.Js.Value.{
  Value, Num, obj, field, str, num, arr, end, items_of, undefined, get,
}
use eventflow_kafka_microser.Js.Host.{Host, int}
use eventflow_kafka_microser.Kafka.Publisher.{KafkaEventTransport}
use eventflow_kafka_microser.Js.Errors.{Thrown, error}
use eventflow_kafka_microser.Events.Envelope.{create_event_envelope, event_params}
use eventflow_kafka_microser.Events.Types.{order_created}

pub data OrderStatus : Type 0 where
  pending completed failed cancelled : OrderStatus

-- `OrderEntity` with its items, without the columns that the database fills in.
pub record OrderEntity : Type 0 where
  pub id : String
  pub customer_id : String
  pub status : OrderStatus
  pub total_amount : Num
  pub currency : String
  pub event_id : Option String
  pub items : List OrderItem

-- `CreateOrderDto`, behind the validation of the request.
pub record CreateOrderDto : Type 0 where
  pub customer_id : String
  pub items : List OrderItem
  pub currency : Option String

pub record CreateOrderResponse : Type 0 where
  pub order_id : String
  pub status : OrderStatus
  pub total_amount : Num
  pub currency : String
  pub event_id : Option String
  pub correlation_id : String

-- `Repository<OrderEntity>` as far as the service calls it.
pub record OrderRepository (Db : Type 0) : Type 0 where
  pub find : Db → String → Option OrderEntity
  pub save : Db → OrderEntity → Db
  pub save_error : ℕ → OrderEntity → Option Thrown
  -- `update({ id }, { status })`, and the `affected` of its result
  pub update_status : Db → String → OrderStatus → Db
  pub affected : Db → String → ℕ
  pub update_error : ℕ → String → Option Thrown

-- shared/src/events/idempotency.ts
unfoldable pub has_published_event_id : Option String → Bool
has_published_event_id none = false
has_published_event_id (some id) = not (id == "")

abbrev pub item_value : OrderItem → Value
item_value item = obj (
    field "productId" (str item.product_id)
      (field "quantity" (num item.quantity) (field "unitPrice" (num item.unit_price) end)))

-- `order.eventId = id`
abbrev pub with_event_id : OrderEntity → String → OrderEntity
with_event_id order id = record order { event_id = some id }

-- The payload of `order.created`.
unfoldable pub order_payload : OrderEntity → Value
order_payload order = obj (
    field "orderId" (str order.id) (
      field "customerId" (str order.customer_id) (
        field "items" (arr (items_of (map item_value order.items))) (
          field "totalAmount" (num order.total_amount)
            (field "currency" (str order.currency) end)))))

-- `toCreateOrderResponse(order, eventId)`
unfoldable pub to_create_order_response : OrderEntity → Option String → CreateOrderResponse
to_create_order_response order event_id = record {
  order_id = order.id;
  status = order.status;
  total_amount = order.total_amount;
  currency = order.currency;
  event_id = elim event_id [ none ↦ order.event_id | some id ↦ some id ];
  correlation_id = order.id;
}

module _ ⦃H : Host⦄ where
  -- `dto.items.reduce((sum, item) => sum + item.quantity * item.unitPrice, sum)`
  unfoldable pub total_from : Num → List OrderItem → Num
  total_from sum [] = sum
  total_from sum (item ∷ items) = total_from (H.add sum (H.mul item.quantity item.unit_price)) items

  unfoldable pub new_order : String → CreateOrderDto → OrderEntity
  new_order order_id dto = record {
    id = order_id;
    customer_id = dto.customer_id;
    status = pending;
    total_amount = total_from (int 0) dto.items;
    currency = elim dto.currency [ none ↦ "BRL" | some c ↦ c ];
    event_id = none;
    items = dto.items;
  }

module _ ⦃H : Host⦄ {Db : Type 0} (publisher : KafkaEventTransport Db)
    (repository : OrderRepository Db) where
  abbrev pub answer : (Db → Db) → Option Thrown → Io Db (Unit {0})
  answer f none = modify f
  answer f (some e) = throw e

  unfoldable pub save_order : OrderEntity → Io Db (Unit {0})
  save_order order = do
    refused ← draw (λ n. repository.save_error n order)
    answer (λ db. repository.save db order) refused

  -- The `catch` block around the publication.
  unfoldable pub mark_failed : OrderEntity → Io Db (Unit {0})
  mark_failed order = do
    save_order (record order { status = failed })
    throw (error "InternalServerErrorException" "Order saved but event could not be published")

  -- What follows the first save and the guard.
  unfoldable pub publish_order : OrderEntity → Io Db CreateOrderResponse
  publish_order order = do
    envelope ←
        create_event_envelope (
          event_params order_created "order-service" (str order.id) undefined (order_payload order))
    let event_id = text_of (get "eventId" envelope)
    let stamped = with_event_id order event_id
    save_order stamped
    attempt (publisher.publish order_created envelope end) (λ e. mark_failed stamped)
    pure (to_create_order_response stamped (some event_id))

  unfoldable pub create_order : CreateOrderDto → Io Db CreateOrderResponse
  create_order dto = do
    order_id ← draw H.uuid
    let order = new_order order_id dto
    save_order order
    if has_published_event_id order.event_id
        then pure (to_create_order_response order none)
        else publish_order order

  unfoldable pub update_order_status : String → OrderStatus → Io Db (Unit {0})
  update_order_status order_id status = do
    refused ← draw (λ n. repository.update_error n order_id)
    affected ← gets (λ db. repository.affected db order_id)
    answer (λ db. repository.update_status db order_id status) refused
    if eqb affected 0
        then throw (error "NotFoundException" (concat ("Order " ∷ order_id ∷ " not found" ∷ [])))
        else pure tt
