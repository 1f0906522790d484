-- ===== src/Payment/Service/Tells.antt =====
-- The events that payment.service.ts publishes, their whole envelopes included.
use Prim.Native.Char.{Char, code}
use text.Mathlib.TextLemmas.{cons-append}
use eventflow_kafka_microser.Prelude.{◌≡◌, refl, String, ◌∷◌, [], ℕ, concat, true, false}
use eventflow_kafka_microser.Js.Io.{World, ◌>>=◌, draw}
use eventflow_kafka_microser.Js.Io.Laws.{OnOk, >>=-OnOk, OnOk-self}
use eventflow_kafka_microser.Js.Host.{Host}
use eventflow_kafka_microser.Js.Value.{Value, get, str, end, prop, obj, field, has}
use eventflow_kafka_microser.Kafka.Publisher.Laws.{Transports}
use eventflow_kafka_microser.Events.Types.{
  EventType, payment_requested, payment_processed, payment_failed, event_name,
}
use eventflow_kafka_microser.Payment.Idempotency.{
  approved, ProcessedEventOutcome, ProcessedEventRepository, skipped_duplicate_order,
}
use eventflow_kafka_microser.Payment.Order.{OrderCreated}
use eventflow_kafka_microser.Kafka.Publisher.{KafkaEventTransport}
use eventflow_kafka_microser.Payment.Service.{
  publish_payment_requested, publish_payment_processed, publish_payment_failed,
}
use eventflow_kafka_microser.Events.Envelope.{
  create_event_envelope, event_params, envelope_object, event_schema_version,
}
use eventflow_kafka_microser.Kafka.Publisher.Steps.{Published, published}
use eventflow_kafka_microser.Js.Text.{not_blank, is_space}
use eventflow_kafka_microser.Js.Text.Blank.{not_blank-cons}
use eventflow_kafka_microser.Kafka.Consume.{extract_envelope, deserialize_kafka_payload}

-- The event that tells of an outcome.
abbrev pub outcome_event : ProcessedEventOutcome → EventType
outcome_event approved = payment_processed
outcome_event _ = payment_failed

-- The payload of the event that tells of an outcome; the detail is the transaction or the reason.
abbrev pub settlement_payload : ProcessedEventOutcome → String → String → String → Value → Value
settlement_payload approved payment_id order_id detail at = obj (
    field "paymentId" (str payment_id) (
      field "orderId" (str order_id)
        (field "transactionId" (str detail) (field "processedAt" at end))))
settlement_payload _ payment_id order_id detail at = obj (
    field "paymentId" (str payment_id)
      (field "orderId" (str order_id) (field "reason" (str detail) (field "failedAt" at end))))

module _ ⦃H : Host⦄ where
  -- The whole envelope of that event: its ids and times are drawn.
  abbrev pub IsSettlement :
      ProcessedEventOutcome → String → String → String → Value → Value → Type 0
  IsSettlement outcome payment_id order_id detail cause v =
      (n k i : ℕ) × (v
        ≡ envelope_object (str (H.uuid n)) (str (event_name (outcome_event outcome)))
            (str event_schema_version) (str (H.iso k)) (str order_id) cause (str "payment-service")
            (settlement_payload outcome payment_id order_id detail (str (H.iso i))))

  -- A transaction id is drawn, and a reason is not blank.
  abbrev pub IsDetail : ProcessedEventOutcome → String → Type 0
  IsDetail approved detail = (n : ℕ) × (detail ≡ H.uuid n)
  IsDetail ProcessedEventOutcome.failed detail = not_blank detail ≡ true
  IsDetail skipped_duplicate_order detail = ⊥

  pub concat-not_blank :
      (c : Char) (s t : String)
      → is_space (code c) ≡ false
      → not_blank (concat (String.◌∷◌ c s ∷ t ∷ [])) ≡ true
  unfolding concat
  concat-not_blank c s t h = rw (cons-append c s t) (not_blank-cons c _ h)

module _ ⦃H : Host⦄ {Db : Type 0} where
  -- `payment.requested` was published, with an id that is the draw behind this one.
  abbrev pub Requested : OrderCreated → World Db → Value → World Db → Type 0
  Requested event w v w' =
      (get "eventId" v ≡ str (H.uuid w.tick))
      × Published payment_requested (str event.payload.order_id) (str event.event_id) v w w'

  -- A publication of the event that tells of an outcome, with exactly this envelope.
  abbrev pub Tells :
      ProcessedEventOutcome
      → String
      → String
      → String
      → Value
      → World Db
      → Unit {0}
      → World Db
      → Type 0
  Tells outcome p order_id detail cause w a w' =
      (v : Value) × IsSettlement outcome p order_id detail cause v
      × Published (outcome_event outcome) (str order_id) cause v w w'

module _ ⦃H : Host⦄ {Db : Type 0} (T : KafkaEventTransport Db) (L : Transports T)
    (R : ProcessedEventRepository Db) where
  pub publish_payment_requested-Published :
      (event : OrderCreated) (payment_id : String) (w : World Db)
      → OnOk (Requested event w) (publish_payment_requested T R event payment_id w)
  unfolding ◌>>=◌ publish_payment_requested create_event_envelope event_params draw envelope_object
      get prop extract_envelope deserialize_kafka_payload has
  publish_payment_requested-Published event p w =
      >>=-OnOk (Requested event w) (T.publish payment_requested _ end) _ _
        (λ a w' h. (refl, published T L _ _ _ _ _ _ h (refl, refl, refl, refl, refl, refl)))

  pub publish_payment_processed-Tells :
      (p order_id t : String) (cause : Value) (w : World Db)
      → OnOk
          (Tells approved p order_id t cause w)
          (publish_payment_processed T R p order_id t cause w)
  unfolding ◌>>=◌ publish_payment_processed create_event_envelope event_params draw envelope_object
      get prop extract_envelope deserialize_kafka_payload has
  publish_payment_processed-Tells p o t c w = OnOk-self (Tells approved p o t c w) _ (λ a w' h.
      (_, (_, _, _, refl), published T L _ _ _ _ _ _ h (refl, refl, refl, refl, refl, refl)))

  pub publish_payment_failed-Tells :
      (p order_id reason : String) (cause : Value) (w : World Db)
      → OnOk
          (Tells ProcessedEventOutcome.failed p order_id reason cause w)
          (publish_payment_failed T R p order_id reason cause w)
  unfolding ◌>>=◌ publish_payment_failed create_event_envelope event_params draw envelope_object get
      prop extract_envelope deserialize_kafka_payload has
  publish_payment_failed-Tells p o t c w =
      OnOk-self (Tells ProcessedEventOutcome.failed p o t c w) _ (λ a w' h.
        (_, (_, _, _, refl), published T L _ _ _ _ _ _ h (refl, refl, refl, refl, refl, refl)))
