-- ===== src/Orders/Consumer/Total.antt =====
-- An event of the other services is projected onto its order.
use eventflow_kafka_microser.Js.Io.{◌>>=◌, draw, World, pure}
use eventflow_kafka_microser.Prelude.{◌≡◌, String, false, none, eqb, ℕ, true, ap, ◌∙◌}
use eventflow_kafka_microser.Js.Host.{Host, is_object}
use eventflow_kafka_microser.Kafka.Publisher.{KafkaEventTransport}
use eventflow_kafka_microser.Kafka.Publisher.Laws.{Transports}
use eventflow_kafka_microser.Kafka.Publisher.Reliable.{Reliable}
use eventflow_kafka_microser.Orders.Service.{
  OrderRepository, update_order_status, answer, OrderStatus, completed,
}
use eventflow_kafka_microser.Js.Io.Returns.{Returns, >>=-Returns}
use eventflow_kafka_microser.Orders.Consumer.{project, handle_notification_sent, projected}
use eventflow_kafka_microser.Js.Value.{Value, Fields, get}
use eventflow_kafka_microser.Orders.Consumer.{run, handle_payment_events, handled, on_parsed}
use eventflow_kafka_microser.Events.Types.{EventType, payment_failed, notification_sent}
use eventflow_kafka_microser.Orders.Consumer.Laws.{
  order_of, order_policy, HasStatus, project-HasStatus,
}
use eventflow_kafka_microser.Kafka.Consume.{
  extract_envelope, parse_payment_failed_message, accepted,
}
use eventflow_kafka_microser.Js.Errors.{ok}
use eventflow_kafka_microser.Js.Io.Reads.{read-Returns}
use eventflow_kafka_microser.Kafka.Retry.Executor.{success}
use eventflow_kafka_microser.Kafka.Retry.Executor.Succeeds.{execute-Succeeds}
use eventflow_kafka_microser.Events.Catalog.{order_service}
use eventflow_kafka_microser.Kafka.Wire.{parse_kafka_headers}

module _ ⦃H : Host⦄ {Db : Type 0} (T : KafkaEventTransport Db) (L : Transports T) (Y : Reliable T)
    (R : OrderRepository Db) (updates : (n : ℕ) (id : String) → R.update_error n id ≡ none) where
  update_order_status-Returns :
      (id : String) (status : OrderStatus) (w : World Db)
      → eqb (R.affected w.db id) 0 ≡ false
      → Returns (update_order_status T R id status w)
  unfolding ◌>>=◌ update_order_status draw answer
  update_order_status-Returns id status w k = rw (updates w.tick id, k) tt

  project-Returns :
      (status : OrderStatus) (logged : String) (event : Value) (w : World Db)
      → is_object (get "payload" event) ≡ true
      → eqb (R.affected w.db (order_of event)) 0 ≡ false
      → Returns (project T R status logged event w)
  unfolding project
  project-Returns status logged event w b k = read-Returns "orderId" (get "payload" event) _ w b (
      >>=-Returns (update_order_status T R (order_of event) status) _ w
        (update_order_status-Returns (order_of event) status w k)
        (λ a v. read-Returns logged (get "payload" event) _ v b tt))

  -- The order of the event, in the table, was given the status, and nothing was sent.
  abbrev pub StatusFor : OrderStatus → Value → World Db → World Db → Type 0
  StatusFor status event w w' =
      (w'.sent ≡ w.sent) × (w'.db ≡ R.update_status w.db (order_of event) status)

  project-StatusFor :
      (t : EventType) (status : OrderStatus) (logged : String) (event : Value) (headers : Fields)
      (w : World Db)
      → is_object (get "payload" event) ≡ true
      → eqb (R.affected w.db (order_of event)) 0 ≡ false
      → (w' : World Db) × ((run T R t event headers (project T R status logged event) >>= λ o.
              pure (handled o))
            w
          ≡ (ok (handled success), w'))
        × StatusFor status event w w'
  unfolding run
  project-StatusFor t status logged event headers w b k =
      let (w', r, (v, s, d, (s', d', e))) =
        execute-Succeeds T L Y order_service (order_policy T L R) t event headers
          (project T R status logged event) (HasStatus T L R status (order_of event)) handled w
          (λ v (s, d).
            project-Returns status logged event v b
              (ap (λ x. eqb (R.affected x (order_of event)) 0) d ∙ k))
          (project-HasStatus T L R status logged event) in
      (w', r, (s' ∙ s, d' ∙ ap (λ x. R.update_status x (order_of event) status) d))

  -- A message of `notification.sent` whose envelope has a payload completes its order.
  pub handle_notification_sent-StatusFor :
      (raw event : Value) (headers : Fields) (w : World Db)
      → extract_envelope raw ≡ ok event
      → is_object (get "payload" event) ≡ true
      → eqb (R.affected w.db (order_of event)) 0 ≡ false
      → (w' : World Db) × (handle_notification_sent T R raw headers w ≡ (ok (handled success), w'))
        × StatusFor completed event w w'
  unfolding handle_notification_sent projected ◌>>=◌
  handle_notification_sent-StatusFor raw event headers w p b k =
      let (w', r, h) =
        project-StatusFor notification_sent completed "channel" event (parse_kafka_headers headers)
          w b k in
      (w', rw p r, h)

  -- A message that `parsePaymentFailedMessage` accepts fails its order.
  pub handle_payment_events-StatusFor :
      (raw event : Value) (headers : Fields) (w : World Db)
      → parse_payment_failed_message raw ≡ ok (accepted event)
      → is_object (get "payload" event) ≡ true
      → eqb (R.affected w.db (order_of event)) 0 ≡ false
      → (w' : World Db) × (handle_payment_events T R raw headers w ≡ (ok (handled success), w'))
        × StatusFor OrderStatus.failed event w w'
  unfolding handle_payment_events
  handle_payment_events-StatusFor raw event headers w p b k =
      let (w', r, h) =
        project-StatusFor payment_failed OrderStatus.failed "reason" event
          (parse_kafka_headers headers) w b k in
      (w', ap (λ x. on_parsed T R headers x w) p ∙ r, h)
