-- ===== src/Saga/Payments.antt =====
-- What payment-service publishes, as the consumers of `payment.events` read it.
use eventflow_kafka_microser.Prelude.{
  ◌≡◌, refl, ℕ, String, true, inr, ◌∙◌, ap, ◌++◌, ◌∷◌, [], subst, List, sym, append_assoc,
}
use eventflow_kafka_microser.Js.Value.{Value, str, get, prop}
use eventflow_kafka_microser.Js.Host.{Host, Message}
use eventflow_kafka_microser.Js.Errors.{ok}
use eventflow_kafka_microser.Payment.Idempotency.{
  ProcessedEventOutcome, approved, ProcessedEventRepository, skipped_duplicate_order,
}
use eventflow_kafka_microser.Payment.Service.{process_payment, outcome_row}
use eventflow_kafka_microser.Saga.Envelopes.{
  Generators, built-IsEnvelope, deserialize_and_extract-built, iso-not_blank_draw,
  uuid-not_blank_draw,
}
use eventflow_kafka_microser.Kafka.Consume.{
  parse_payment_processed_message, accepted, parse_payment_failed_message, deserialize_and_extract,
}
use eventflow_kafka_microser.Js.Text.{not_blank, trim, trim_start, trim_end, is_space, is_empty}
use eventflow_kafka_microser.Events.Validate.{payment_processed_fields, payment_failed_fields}
use eventflow_kafka_microser.Events.Validate.Sound.{HasTexts}
use eventflow_kafka_microser.Payment.Service.Tells.{
  settlement_payload, IsDetail, IsSettlement, outcome_event,
}
use eventflow_kafka_microser.Events.Envelope.{envelope_object}
use eventflow_kafka_microser.Kafka.Consume.Pipelines.{
  parse_payment_processed_message-accepted_iff, parse_payment_failed_message-accepted_iff,
}
use eventflow_kafka_microser.Kafka.Publisher.{KafkaEventTransport}
use eventflow_kafka_microser.Kafka.Consume.Accepts.{IsAccepted}
use eventflow_kafka_microser.Kafka.Publisher.Laws.{Transports}
use eventflow_kafka_microser.Payment.Order.{OrderCreated}
use eventflow_kafka_microser.Js.Io.{World}
use eventflow_kafka_microser.Events.Topics.{resolve_kafka_topic}
use eventflow_kafka_microser.Payment.Service.Laws.{Processed, process_payment-Processed}
use eventflow_kafka_microser.Js.Io.Laws.{OnOk, OnOk-map}

-- What the validator of the outcome's event requires.
abbrev settlement_fields : ProcessedEventOutcome → List String
settlement_fields approved = payment_processed_fields
settlement_fields _ = payment_failed_fields

module _ ⦃H : Host⦄ where
  -- The pipeline of the outcome's event accepts the message.
  abbrev pub IsReadAs : ProcessedEventOutcome → Value → Type 0
  IsReadAs approved v = parse_payment_processed_message v ≡ ok (accepted v)
  IsReadAs ProcessedEventOutcome.failed v = parse_payment_failed_message v ≡ ok (accepted v)
  IsReadAs skipped_duplicate_order v = ⊥

  settlement_payload-HasTexts :
      (G : Generators H) (o : ProcessedEventOutcome) (p id detail : String) (i : ℕ)
      → not_blank p ≡ true
      → not_blank id ≡ true
      → not_blank detail ≡ true
      → HasTexts (settlement_fields o) (settlement_payload o p id detail (str (H.iso i)))
  unfolding get prop
  settlement_payload-HasTexts G approved p id detail i a b c = (
    refl,
    ((_, refl, a), ((_, refl, b), ((_, refl, c), ((_, refl, iso-not_blank_draw G i), tt)))),
  )
  settlement_payload-HasTexts G _ p id detail i a b c = (
    refl,
    ((_, refl, a), ((_, refl, b), ((_, refl, c), ((_, refl, iso-not_blank_draw G i), tt)))),
  )

  settlement_payload-order :
      (o : ProcessedEventOutcome) (p id detail : String) (at : Value)
      → get "orderId" (settlement_payload o p id detail at) ≡ str id
  unfolding get prop
  settlement_payload-order approved p id detail at = refl
  settlement_payload-order _ p id detail at = refl

  IsDetail-not_blank :
      (G : Generators H) (o : ProcessedEventOutcome) (detail : String)
      → IsDetail o detail
      → not_blank detail ≡ true
  IsDetail-not_blank G approved detail (n, e) = rw e (uuid-not_blank_draw G n)
  IsDetail-not_blank G ProcessedEventOutcome.failed detail h = h
  IsDetail-not_blank G skipped_duplicate_order detail h = elim h [ ]

  IsAccepted-IsReadAs :
      (o : ProcessedEventOutcome) (detail : String) (v : Value)
      → IsDetail o detail
      → deserialize_and_extract v ≡ ok v
      → IsAccepted (outcome_event o) (HasTexts (settlement_fields o)) v
      → IsReadAs o v
  IsAccepted-IsReadAs skipped_duplicate_order detail v d e h = elim d [ ]
  IsAccepted-IsReadAs approved detail v d e h =
      (parse_payment_processed_message-accepted_iff v v).1 (e, h)
  IsAccepted-IsReadAs ProcessedEventOutcome.failed detail v d e h =
      (parse_payment_failed_message-accepted_iff v v).1 (e, h)

  settlement-IsReadAs :
      (G : Generators H) (o : ProcessedEventOutcome) (p id detail : String) (k : ℕ) (v : Value)
      → not_blank p ≡ true
      → not_blank id ≡ true
      → IsDetail o detail
      → IsSettlement o p id detail (str (H.uuid k)) v
      → IsReadAs o v
  unfolding not_blank trim trim_start trim_end is_space is_empty envelope_object get prop
  settlement-IsReadAs G o p id detail k v a b d (i, j, l, f) =
      let texts =
        settlement_payload-HasTexts G o p id detail l a b (IsDetail-not_blank G o detail d) in
      subst (IsReadAs o) (sym f) (
        IsAccepted-IsReadAs o detail _ d
          (deserialize_and_extract-built (outcome_event o) i j id _ "payment-service" _)
          (record {
            envelope =
                built-IsEnvelope G (outcome_event o) i j id (str (H.uuid k)) "payment-service" _ b
                  refl (inr (_, refl, G.uuid_fits k)) texts.0;
            payload = texts;
            correlated = (id, refl, settlement_payload-order o p id detail _);
          }))

  module _ {Db : Type 0} (T : KafkaEventTransport Db) (L : Transports T)
      (R : ProcessedEventRepository Db) where
    -- Two records were accepted, and the second is one that the pipeline of the stored outcome
    -- accepts.
    abbrev pub Understood : OrderCreated → World Db → Unit {0} → World Db → Type 0
    Understood event w a w' =
        (requested m : Message) × (o : ProcessedEventOutcome) × (n : ℕ) × (w'.sent
          ≡ w.sent ++ requested ∷ m ∷ [])
        × (m.topic ≡ resolve_kafka_topic (outcome_event o))
        × (m.key ≡ str event.payload.order_id)
        × IsReadAs o m.value
        × (get "orderId" (get "payload" m.value) ≡ str event.payload.order_id)
        × (w'.db ≡ R.save w.db (outcome_row T R event (H.uuid n) o))

    Processed-Understood :
        (G : Generators H) (event : OrderCreated) (w w' : World Db) (a : Unit {0})
        → not_blank event.payload.order_id ≡ true
        → Processed T L R event w a w'
        → Understood event w a w'
    Processed-Understood G event w w' a b
          (
            n,
            k,
            q,
            u,
            e,
            (m, t, y, z, st, acc),
            (o, d, g, x, (v, is, (m2, t2, y2, z2, s2, acc2)), s, db),
          ) =
        (
          m,
          m2,
          o,
          n,
          s ∙ acc2.0 ∙ ap (λ l. l ++ m2 ∷ []) acc.0 ∙ append_assoc w.sent _ _,
          t2,
          y2,
          subst (IsReadAs o) (sym z2) (
              settlement-IsReadAs G o (H.uuid n) event.payload.order_id d k v
                (uuid-not_blank_draw G n) b g
                (subst (λ c. IsSettlement o (H.uuid n) event.payload.order_id d c v) e is)),
          ap (λ x. get "orderId" (get "payload" x)) z2 ∙ s2.3,
          db ∙ ap (λ b. R.save b (outcome_row T R event (H.uuid n) o)) acc.1,
        )

    -- If `processPayment` returns for an order whose id is not blank, it has published two records,
    -- and the second, on `payment.events`, keyed by the order and with the order's id in its payload,
    -- is a message that the other services' pipeline for the outcome accepts:
    -- `parsePaymentProcessedMessage` where the stored row says approved and
    -- `parsePaymentFailedMessage` where it says failed. The transport keeps its
    -- interface, and `randomUUID` and `toISOString` give texts of their documented formats.
    pub process_payment-Understood :
        (G : Generators H) (event : OrderCreated) (w : World Db)
        → not_blank event.payload.order_id ≡ true
        → OnOk (Understood event w) (process_payment T R event w)
    process_payment-Understood G event w b =
        OnOk-map (Processed T L R event w) (Understood event w) _
          (λ a w' h. Processed-Understood G event w w' a b h)
          (process_payment-Processed T L R event w)
