-- ===== src/Orders/Consumer/Laws.antt =====
-- What order-service does with the events of the other services: the status of an order follows them.
use eventflow_kafka_microser.Prelude.{
  ◌≡◌, refl, String, false, eqb, ap, none, some, Option, ◌+◌, concat, if◌then◌else◌, ◌∷◌, [],
}
use eventflow_kafka_microser.Js.Io.{World, ◌>>=◌, draw, pure, throw}
use eventflow_kafka_microser.Js.Io.Laws.{OnOk, >>=-OnOk, OnOk-ok, if-OnOk}
use eventflow_kafka_microser.Js.Host.{Host}
use eventflow_kafka_microser.Js.Errors.{Result, ok, err, validation, Thrown, error}
use eventflow_kafka_microser.Js.Value.{Value, Fields, get}
use eventflow_kafka_microser.Orders.Consumer.{
  Ack, on_parsed, run, project, projected, handle_payment_events, handle_stock_released,
  handle_stock_failed, handle_notification_sent, handled, invalid, id_text,
}
use eventflow_kafka_microser.Orders.Service.{
  OrderStatus, OrderRepository, answer, update_order_status, cancelled, completed,
}
use eventflow_kafka_microser.Events.Types.{
  stock_released, stock_failed, notification_sent, payment_failed, EventType,
}
use eventflow_kafka_microser.Kafka.Publisher.{KafkaEventTransport}
use eventflow_kafka_microser.Kafka.Publisher.Laws.{Transports}
use eventflow_kafka_microser.Kafka.Consume.{
  parse_payment_failed_message, Parsed, extract_envelope, accepted,
}
use eventflow_kafka_microser.Js.Io.Reads.{read-OnOk, lift-OnOk}
use eventflow_kafka_microser.Kafka.Retry.{
  RetryPolicyConfig, resolve_consumer_retry_policy, no_overrides,
}
use eventflow_kafka_microser.Kafka.Retry.Executor.Concludes.{Concludes, execute_then-OnOk}
use eventflow_kafka_microser.Kafka.Wire.{parse_kafka_headers}
use eventflow_kafka_microser.Events.Catalog.{order_service}

module _ ⦃H : Host⦄ where
  -- The id by which an event's order is looked up.
  abbrev pub order_of : Value → String
  order_of event = id_text (get "orderId" (get "payload" event))

module _ ⦃H : Host⦄ {Db : Type 0} (T : KafkaEventTransport Db) (L : Transports T)
    (R : OrderRepository Db) where
  -- An order that the table has was given the status, and nothing was sent.
  abbrev pub HasStatus : OrderStatus → String → World Db → Unit {0} → World Db → Type 0
  HasStatus status id w a w' =
      (w'.sent ≡ w.sent)
      × (w'.db ≡ R.update_status w.db id status)
      × (eqb (R.affected w.db id) 0 ≡ false)

  answer-HasStatus :
      (status : OrderStatus) (id : String) (refused : Option Thrown) (w u : World Db)
      → u.sent ≡ w.sent
      → u.db ≡ w.db
      → OnOk (HasStatus status id w) (
          (answer T R (λ db. R.update_status db id status) refused >>= λ _.
          if eqb (R.affected u.db id) 0
          then throw (error "NotFoundException" (concat ("Order " ∷ id ∷ " not found" ∷ [])))
          else pure tt)
            u)
  unfolding ◌>>=◌ concat
  answer-HasStatus status id none w u s d =
      if-OnOk (HasStatus status id w) (eqb (R.affected u.db id) 0) _ _ _ (λ h. tt)
        (λ h. (s, ap (λ b. R.update_status b id status) d, rw (← d) h))
  answer-HasStatus status id (some e) w u s d = tt

  update-HasStatus :
      (id : String) (status : OrderStatus) (w : World Db)
      → OnOk (HasStatus status id w) (update_order_status T R id status w)
  unfolding ◌>>=◌ update_order_status draw concat
  update-HasStatus id status w =
      answer-HasStatus status id (R.update_error w.tick id) w (record w { tick = w.tick + 1 }) refl
        refl

  pub project-HasStatus :
      (status : OrderStatus) (logged : String) (event : Value) (w : World Db)
      → OnOk (HasStatus status (order_of event) w) (project T R status logged event w)
  unfolding project
  project-HasStatus status logged event w =
      let P = HasStatus status (order_of event) w in
      read-OnOk P "orderId" (get "payload" event) _ w (
        >>=-OnOk P (update_order_status T R (order_of event) status) _ w (λ a v h.
          read-OnOk P logged (get "payload" event) _ v
            (OnOk-ok P _ (update-HasStatus (order_of event) status w) h)))

  abbrev pub order_policy : RetryPolicyConfig
  order_policy = resolve_consumer_retry_policy no_overrides

  abbrev pub Projected :
      EventType → OrderStatus → String → Value → Fields → World Db → Ack → World Db → Type 0
  Projected t status logged raw headers w (handled o) w' =
      (event : Value) × (extract_envelope raw ≡ ok event)
      × Concludes t event (parse_kafka_headers headers) order_policy
          (project T R status logged event) (HasStatus status (order_of event)) w o w'
  Projected t status logged raw headers w a w' = ⊥

  projected-Projected :
      (t : EventType) (status : OrderStatus) (logged : String) (raw : Value) (headers : Fields)
      (w : World Db)
      → OnOk (Projected t status logged raw headers w) (projected T R t status logged raw headers w)
  unfolding projected run
  projected-Projected t status logged raw headers w =
      let P = Projected t status logged raw headers w in
      lift-OnOk P (extract_envelope raw) _ w (λ v e.
        execute_then-OnOk t v (parse_kafka_headers headers) order_policy
          (project T R status logged v) (HasStatus status (order_of v)) T L order_service handled P
          w (project-HasStatus status logged v) (λ o w' h. (v, e, h)))

  -- The three handlers of order-service that read an envelope without validating it: when one answers,
  -- success means that the order of the event, which is in the table, was given the status of that
  -- handler, cancelled for `stock.released`, failed for `stock.failed` and completed for
  -- `notification.sent`, and that nothing was sent; otherwise the update was refused or found no
  -- order, or a field could not be read, and the message was forwarded to its retry or to the
  -- dead-letter topic. The transport keeps its interface.
  pub projections-Projected :
      (raw : Value) (headers : Fields) (w : World Db)
      → OnOk
          (Projected stock_released cancelled "reason" raw headers w)
          (handle_stock_released T R raw headers w)
        × OnOk
            (Projected stock_failed OrderStatus.failed "reason" raw headers w)
            (handle_stock_failed T R raw headers w)
        × OnOk
            (Projected notification_sent completed "channel" raw headers w)
            (handle_notification_sent T R raw headers w)
  unfolding handle_stock_released handle_stock_failed handle_notification_sent
  projections-Projected raw headers w = (
    projected-Projected stock_released cancelled "reason" raw headers w,
    projected-Projected stock_failed OrderStatus.failed "reason" raw headers w,
    projected-Projected notification_sent completed "channel" raw headers w,
  )

  abbrev pub Failed : Value → Fields → World Db → Ack → World Db → Type 0
  Failed raw headers w invalid w' = w' ≡ w
  Failed raw headers w (Ack.skipped t) w' = w' ≡ w
  Failed raw headers w (handled o) w' =
      (event : Value) × (parse_payment_failed_message raw ≡ ok (accepted event))
      × Concludes payment_failed event (parse_kafka_headers headers) order_policy
          (project T R OrderStatus.failed "reason" event)
          (HasStatus OrderStatus.failed (order_of event)) w o w'

  on_parsed-Failed :
      (raw : Value) (headers : Fields) (w : World Db) (p : Result Parsed)
      → parse_payment_failed_message raw ≡ p
      → OnOk (Failed raw headers w) (on_parsed T R headers p w)
  unfolding run
  on_parsed-Failed raw headers w (ok (accepted v)) e =
      execute_then-OnOk payment_failed v (parse_kafka_headers headers) order_policy
        (project T R OrderStatus.failed "reason" v) (HasStatus OrderStatus.failed (order_of v)) T L
        order_service handled (Failed raw headers w) w
        (project-HasStatus OrderStatus.failed "reason" v) (λ o w' h. (v, e, h))
  on_parsed-Failed raw headers w (ok (Parsed.skipped r t)) e = refl
  on_parsed-Failed raw headers w (err (validation m ds)) e = refl
  on_parsed-Failed raw headers w (err x) e = tt

  -- Whatever order-service answers to a message of `payment.events`: an invalid or skipped message
  -- changes nothing; a message that is handled was read as a `payment.failed` event, and success means
  -- that the event's order, which is in the table, was given the status failed and nothing was sent,
  -- while otherwise the handler threw and the message was forwarded to its retry or to the
  -- dead-letter topic. The transport keeps its interface.
  pub handle_payment_events-Failed :
      (raw : Value) (headers : Fields) (w : World Db)
      → OnOk (Failed raw headers w) (handle_payment_events T R raw headers w)
  unfolding handle_payment_events
  handle_payment_events-Failed raw headers w = on_parsed-Failed raw headers w _ refl
