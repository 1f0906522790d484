-- ===== src/Stock/Laws.antt =====
-- What stock-service does with a message.
use eventflow_kafka_microser.Prelude.{◌≡◌, refl}
use eventflow_kafka_microser.Js.Io.{World, ◌>>=◌, draw}
use eventflow_kafka_microser.Js.Io.Laws.{OnOk, OnOk-self}
use eventflow_kafka_microser.Js.Host.{Host}
use eventflow_kafka_microser.Js.Errors.{Result, ok, err, validation}
use eventflow_kafka_microser.Js.Value.{Value, Fields, get, prop, has}
use eventflow_kafka_microser.Stock.{
  handle_order_cancelled_event, Ack, on_parsed, run, handle_payment_processed,
  handle_order_cancelled, handle_payment_events, handled, invalid,
}
use eventflow_kafka_microser.Kafka.Publisher.{KafkaEventTransport}
use eventflow_kafka_microser.Kafka.Publisher.Laws.{Transports}
use eventflow_kafka_microser.Events.Types.{
  EventType, stock_reserved, stock_released, payment_processed, order_cancelled,
}
use eventflow_kafka_microser.Events.Envelope.{create_event_envelope, event_params, envelope_object}
use eventflow_kafka_microser.Kafka.Publisher.Steps.{Publishes, published}
use eventflow_kafka_microser.Kafka.Consume.{
  parse_payment_processed_message, Parsed, extract_envelope, accepted, deserialize_kafka_payload,
}
use eventflow_kafka_microser.Js.Io.Reads.{read-OnOk, lift-OnOk}
use eventflow_kafka_microser.Kafka.Retry.{
  RetryPolicyConfig, resolve_consumer_retry_policy, no_overrides,
}
use eventflow_kafka_microser.Kafka.Retry.Executor.Concludes.{Concludes, execute_then-OnOk}
use eventflow_kafka_microser.Kafka.Wire.{parse_kafka_headers}
use eventflow_kafka_microser.Events.Catalog.{stock_service}

module _ ⦃H : Host⦄ {Db : Type 0} (T : KafkaEventTransport Db) (L : Transports T) where
  -- One event of this type was published, for the order of the event and caused by it.
  abbrev pub Answers : EventType → Value → World Db → Unit {0} → World Db → Type 0
  Answers t event = Publishes t (get "orderId" (get "payload" event)) (get "eventId" event)

  pub reserve-Answers :
      (event : Value) (w : World Db)
      → OnOk (Answers stock_reserved event w) (handle_payment_processed T event w)
  unfolding ◌>>=◌ handle_payment_processed create_event_envelope event_params draw envelope_object
      get prop extract_envelope deserialize_kafka_payload has
  reserve-Answers event w =
      read-OnOk (Answers stock_reserved event w) "orderId" (get "payload" event) _ w (
        OnOk-self (Answers stock_reserved event w) _
          (λ a w' h. (_, published T L _ _ _ _ _ _ h (refl, refl, refl, refl, refl, refl))))

  release-Answers :
      (event : Value) (w : World Db)
      → OnOk (Answers stock_released event w) (handle_order_cancelled T event w)
  unfolding ◌>>=◌ handle_order_cancelled create_event_envelope event_params draw envelope_object get
      prop extract_envelope deserialize_kafka_payload has
  release-Answers event w =
      read-OnOk (Answers stock_released event w) "orderId" (get "payload" event) _ w (
        OnOk-self (Answers stock_released event w) _
          (λ a w' h. (_, published T L _ _ _ _ _ _ h (refl, refl, refl, refl, refl, refl))))

  -- `EVENT_RETRY_POLICY` of the runner.
  abbrev pub stock_policy : RetryPolicyConfig
  stock_policy = resolve_consumer_retry_policy no_overrides

  -- What became of a message of `payment.events`: it was no event of this service and nothing was
  -- done, or its event was handled.
  abbrev pub Reserved : Value → Fields → World Db → Ack → World Db → Type 0
  Reserved raw headers w invalid w' = w' ≡ w
  Reserved raw headers w (Ack.skipped t) w' = w' ≡ w
  Reserved raw headers w (handled o) w' =
      (event : Value) × (parse_payment_processed_message raw ≡ ok (accepted event))
      × Concludes payment_processed event (parse_kafka_headers headers) stock_policy
          (handle_payment_processed T event) (Answers stock_reserved event) w o w'

  on_parsed-Reserved :
      (raw : Value) (headers : Fields) (w : World Db) (p : Result Parsed)
      → parse_payment_processed_message raw ≡ p
      → OnOk (Reserved raw headers w) (on_parsed T headers p w)
  unfolding run
  on_parsed-Reserved raw headers w (ok (accepted v)) e =
      execute_then-OnOk payment_processed v (parse_kafka_headers headers) stock_policy
        (handle_payment_processed T v) (Answers stock_reserved v) T L stock_service handled
        (Reserved raw headers w) w (reserve-Answers v) (λ o w' h. (v, e, h))
  on_parsed-Reserved raw headers w (ok (Parsed.skipped r t)) e = refl
  on_parsed-Reserved raw headers w (err (validation m ds)) e = refl
  on_parsed-Reserved raw headers w (err x) e = tt

  -- Whatever stock-service answers to a message of `payment.events`: an invalid or skipped message
  -- changes nothing; a message that is handled was read as a `payment.processed` event, and success
  -- means that one `stock.reserved` was published, keyed by that event's order and caused by the
  -- event, while otherwise the handler threw and the message was forwarded to its retry or to the
  -- dead-letter topic. The transport keeps its interface.
  pub handle_payment_events-Reserved :
      (raw : Value) (headers : Fields) (w : World Db)
      → OnOk (Reserved raw headers w) (handle_payment_events T raw headers w)
  unfolding handle_payment_events
  handle_payment_events-Reserved raw headers w = on_parsed-Reserved raw headers w _ refl

  abbrev pub Released : Value → Fields → World Db → Ack → World Db → Type 0
  Released raw headers w (handled o) w' =
      (event : Value) × (extract_envelope raw ≡ ok event)
      × Concludes order_cancelled event (parse_kafka_headers headers) stock_policy
          (handle_order_cancelled T event) (Answers stock_released event) w o w'
  Released raw headers w a w' = ⊥

  -- Whatever message of `order.cancelled` stock-service answers, it was handled, with the envelope that
  -- was read from it: success means that one `stock.released` was published, keyed by that event's
  -- order and caused by the event, and otherwise the handler threw and the message was forwarded to
  -- its retry or to the dead-letter topic. The transport keeps its interface.
  pub handle_order_cancelled_event-Released :
      (raw : Value) (headers : Fields) (w : World Db)
      → OnOk (Released raw headers w) (handle_order_cancelled_event T raw headers w)
  unfolding handle_order_cancelled_event run
  handle_order_cancelled_event-Released raw headers w =
      lift-OnOk (Released raw headers w) (extract_envelope raw) _ w (λ v e.
        execute_then-OnOk order_cancelled v (parse_kafka_headers headers) stock_policy
          (handle_order_cancelled T v) (Answers stock_released v) T L stock_service handled
          (Released raw headers w) w (release-Answers v) (λ o w' h. (v, e, h)))
