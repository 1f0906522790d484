-- ===== src/Notification/Laws.antt =====
-- What notification-service does with a message.
use eventflow_kafka_microser.Prelude.{◌≡◌, refl}
use eventflow_kafka_microser.Js.Io.{Io, World, ◌>>=◌, draw, lift}
use eventflow_kafka_microser.Js.Io.Laws.{OnOk, OnOk-self, >>=-OnOk}
use eventflow_kafka_microser.Js.Host.{Host, read}
use eventflow_kafka_microser.Js.Errors.{ok}
use eventflow_kafka_microser.Js.Value.{Value, Fields, get, prop, end, has}
use eventflow_kafka_microser.Notification.{
  Ack, run, handle_stock_reserved, handle_stock_reserved_event, handled,
}
use eventflow_kafka_microser.Events.Types.{notification_send, notification_sent, stock_reserved}
use eventflow_kafka_microser.Kafka.Publisher.{KafkaEventTransport}
use eventflow_kafka_microser.Kafka.Publisher.Laws.{Transports}
use eventflow_kafka_microser.Events.Envelope.{create_event_envelope, event_params, envelope_object}
use eventflow_kafka_microser.Kafka.Consume.{extract_envelope, deserialize_kafka_payload}
use eventflow_kafka_microser.Kafka.Publisher.Steps.{Published, published}
use eventflow_kafka_microser.Kafka.Retry.{
  RetryPolicyConfig, resolve_consumer_retry_policy, no_overrides,
}
use eventflow_kafka_microser.Js.Io.Reads.{lift-OnOk, read-OnOk}
use eventflow_kafka_microser.Kafka.Retry.Executor.Concludes.{Concludes, execute_then-OnOk}
use eventflow_kafka_microser.Kafka.Wire.{parse_kafka_headers}
use eventflow_kafka_microser.Events.Catalog.{notification_service}

module _ ⦃H : Host⦄ {Db : Type 0} (T : KafkaEventTransport Db) (L : Transports T) where
  -- `notification.send` was published, caused by the event, and then `notification.sent`, caused by
  -- the former; both are for the event's order.
  abbrev pub Notifies : Value → World Db → Unit {0} → World Db → Type 0
  Notifies event w a w' =
      let id = get "orderId" (get "payload" event) in
      (send sent : Value) × (u : World Db) × Published notification_send id (get "eventId" event)
        send w u
      × Published notification_sent id (get "eventId" send) sent u w'

  pub notify-Notifies :
      (event : Value) (w : World Db) → OnOk (Notifies event w) (handle_stock_reserved T event w)
  unfolding ◌>>=◌ handle_stock_reserved create_event_envelope event_params draw envelope_object get
      prop extract_envelope deserialize_kafka_payload has
  notify-Notifies event w = read-OnOk (Notifies event w) "orderId" (get "payload" event) _ w (
      >>=-OnOk (Notifies event w) (T.publish notification_send _ end) _ _ (λ a u h.
        OnOk-self (Notifies event w) _ (λ b w' i. (
          _,
          _,
          u,
          published T L _ _ _ _ _ _ h (refl, refl, refl, refl, refl, refl),
          published T L _ _ _ _ _ _ i (refl, refl, refl, refl, refl, refl),
        ))))

  -- `EVENT_RETRY_POLICY` of the runner.
  abbrev pub notification_policy : RetryPolicyConfig
  notification_policy = resolve_consumer_retry_policy no_overrides

  -- What the runner is given for a message of `stock.reserved`.
  abbrev pub stock_reserved_handler : Value → Io Db (Unit {0})
  stock_reserved_handler event = do
    _ ← lift (read "orderId" (get "payload" event))
    handle_stock_reserved T event

  abbrev pub Notified : Value → Fields → World Db → Ack → World Db → Type 0
  Notified raw headers w (handled o) w' =
      (event : Value) × (extract_envelope raw ≡ ok event)
      × Concludes stock_reserved event (parse_kafka_headers headers) notification_policy
          (stock_reserved_handler event) (Notifies event) w o w'
  Notified raw headers w a w' = ⊥

  -- Whatever message of `stock.reserved` notification-service answers, it was handled, with the
  -- envelope that was read from it: success means that two records were published for its order and
  -- keyed by it, first `notification.send`, caused by the event, and then `notification.sent`, caused
  -- by the first; otherwise the handler threw and the message was forwarded to its retry or to the
  -- dead-letter topic. The transport keeps its interface.
  pub handle_stock_reserved_event-Notified :
      (raw : Value) (headers : Fields) (w : World Db)
      → OnOk (Notified raw headers w) (handle_stock_reserved_event T raw headers w)
  unfolding handle_stock_reserved_event run
  handle_stock_reserved_event-Notified raw headers w =
      lift-OnOk (Notified raw headers w) (extract_envelope raw) _ w (λ v e.
        execute_then-OnOk stock_reserved v (parse_kafka_headers headers) notification_policy
          (stock_reserved_handler v) (Notifies v) T L notification_service handled
          (Notified raw headers w) w
          (λ u. read-OnOk (Notifies v u) "orderId" (get "payload" v) _ u (notify-Notifies v u))
          (λ o w' h. (v, e, h)))
