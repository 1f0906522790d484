-- ===== src/Payment/Service/Laws.antt =====
-- What processing a payment publishes and records.
use eventflow_kafka_microser.Prelude.{
  ◌≡◌, refl, ◌∙◌, String, Option, ◌+◌, ap, List, some, ◌++◌, ◌∷◌, none, [], ◌&&◌, ℕ, true,
}
use eventflow_kafka_microser.Js.Io.{World, ◌>>=◌, draw, sleep}
use eventflow_kafka_microser.Js.Io.Laws.{
  OnOk, >>=-OnOk, OnOk-self, OnOk-ok, Keeps, Keeps-OnOk, if-OnOk,
}
use eventflow_kafka_microser.Js.Host.{Host, truthy_num, int}
use eventflow_kafka_microser.Js.Errors.{ok, Thrown, Result, err}
use eventflow_kafka_microser.Js.Value.{Value, get, str, Num}
use eventflow_kafka_microser.Kafka.Publisher.Laws.{Transports}
use eventflow_kafka_microser.Events.Types.{payment_requested}
use eventflow_kafka_microser.Payment.Idempotency.{
  approved, ProcessedEventOutcome, ProcessedEventRepository, ProcessedEvent, record_processed,
  saved,
}
use eventflow_kafka_microser.Payment.Order.{OrderCreated}
use eventflow_kafka_microser.Kafka.Publisher.{KafkaEventTransport}
use eventflow_kafka_microser.Payment.Service.{
  publish_payment_requested, publish_payment_processed, outcome_row, fail_payment, approve_payment,
  process_payment, settle, charge, simulated_delay,
}
use eventflow_kafka_microser.Payment.Simulator.{Simulation, simulate_payment_gateway}
use eventflow_kafka_microser.Payment.Rules.{PaymentRuleViolation}
use eventflow_kafka_microser.Payment.Simulator.Laws.{
  HasReason, Simulated, simulate_payment_gateway-Simulated,
}
use eventflow_kafka_microser.Kafka.Publisher.Steps.{Published}
use eventflow_kafka_microser.Js.Text.{not_blank, is_space}
use eventflow_kafka_microser.Payment.Service.Tells.{
  IsDetail, Tells, concat-not_blank, Requested, publish_payment_failed-Tells,
  publish_payment_processed-Tells, publish_payment_requested-Published,
}

module _ ⦃H : Host⦄ {Db : Type 0} (T : KafkaEventTransport Db) (L : Transports T)
    (R : ProcessedEventRepository Db) where
  -- The row was saved, and nothing was sent.
  abbrev Saved : ProcessedEvent → World Db → Unit {0} → World Db → Type 0
  Saved row w a w' = (w'.sent ≡ w.sent) × (w'.db ≡ R.save w.db row)

  saved-Saved :
      (row : ProcessedEvent) (answer : Option Thrown) (w : World Db)
      → OnOk (Saved row w) (saved R row answer w)
  saved-Saved row none w = (refl, refl)
  saved-Saved row (some e) w = tt

  record_processed-Saved :
      (row : ProcessedEvent) (w : World Db) → OnOk (Saved row w) (record_processed R row w)
  unfolding ◌>>=◌ record_processed draw
  record_processed-Saved row w =
      saved-Saved row (R.save_error w.tick row) (record w { tick = w.tick + 1 })

  -- The event that tells of the outcome was published, and then the outcome's row was saved.
  abbrev pub Settled : OrderCreated → String → Value → World Db → Unit {0} → World Db → Type 0
  Settled event payment_id requested w a w' =
      (outcome : ProcessedEventOutcome) × (detail : String) × IsDetail outcome detail
      × (u : World Db) × Tells outcome payment_id event.payload.order_id detail
          (get "eventId" requested) w a u
      × (w'.sent ≡ u.sent)
      × (w'.db ≡ R.save w.db (outcome_row T R event payment_id outcome))

  recorded :
      (event : OrderCreated) (p : String) (q : Value) (outcome : ProcessedEventOutcome)
      (detail : String) (w u : World Db)
      → IsDetail outcome detail
      → Tells outcome p event.payload.order_id detail (get "eventId" q) w tt u
      → OnOk (Settled event p q w) (record_processed R (outcome_row T R event p outcome) u)
  recorded event p q outcome detail w u g (v, x, k) =
      let (m, t, y, z, st, a) = k in
      OnOk-self (Settled event p q w) _ (λ b w' i.
        let (s, d) = OnOk-ok (Saved _ u) _ (record_processed-Saved _ u) i in
        (
          outcome,
          detail,
          g,
          u,
          (v, x, k),
          s,
          d ∙ ap (λ b. R.save b (outcome_row T R event p outcome)) a.1,
        ))

  fail_payment-Settled :
      (event : OrderCreated) (p : String) (requested : Value) (reason : String) (w : World Db)
      → not_blank reason ≡ true
      → OnOk (Settled event p requested w) (fail_payment T R event p requested reason w)
  unfolding fail_payment
  fail_payment-Settled event p q reason w g = >>=-OnOk (Settled event p q w) _ _ w (λ a u h.
      recorded event p q ProcessedEventOutcome.failed reason w u g (
        OnOk-ok
          (Tells ProcessedEventOutcome.failed p event.payload.order_id reason (get "eventId" q) w) _
          (publish_payment_failed-Tells T L R p _ reason (get "eventId" q) w) h))

  approve_payment-Settled :
      (event : OrderCreated) (p : String) (requested : Value) (w : World Db)
      → OnOk (Settled event p requested w) (approve_payment T R event p requested w)
  unfolding ◌>>=◌ approve_payment draw
  approve_payment-Settled event p q w =
      >>=-OnOk (Settled event p q w) (publish_payment_processed T R p _ _ _) _ _ (λ a u h.
        recorded event p q approved (H.uuid w.tick) w u (w.tick, refl)
          (OnOk-ok (Tells approved p event.payload.order_id (H.uuid w.tick) (get "eventId" q) w) _
            (publish_payment_processed-Tells T L R p _ _ (get "eventId" q) _) h))

  pub simulated_delay-Keeps :
      (delay : Option Num) (w : World Db) → OnOk (Keeps w) (simulated_delay T R delay w)
  unfolding sleep
  simulated_delay-Keeps none w = (refl, refl)
  simulated_delay-Keeps (some ms) w =
      if-OnOk (Keeps w) (truthy_num ms && H.lt (int 0) ms) _ _ w (λ h. (refl, refl))
        (λ h. (refl, refl))

  -- The same from an earlier state, between which and this one nothing was sent or stored.
  Settled-back :
      (event : OrderCreated) (p : String) (q : Value) (w u : World Db)
      (r : Result (Unit {0}) × World Db)
      → u.sent ≡ w.sent
      → u.db ≡ w.db
      → OnOk (Settled event p q u) r
      → OnOk (Settled event p q w) r
  Settled-back event p q w u (ok a, w') s d (o, t, g, x, (v, e, (m, l, y, z, st, k)), f, i) = (
    o,
    t,
    g,
    x,
    (v, e, (m, l, y, z, st, (k.0 ∙ ap (λ l. l ++ m ∷ []) s, k.1 ∙ d))),
    f,
    i ∙ ap (λ b. R.save b (outcome_row T R event p o)) d,
  )
  Settled-back event p q w u (err e, w') s d h = tt

  settle-Settled :
      (event : OrderCreated) (p : String) (requested : Value) (result : Simulation) (w : World Db)
      → HasReason result
      → OnOk (Settled event p requested w) (settle T R event p requested result w)
  settle-Settled event p q (Simulation.approved x) w g = approve_payment-Settled event p q w
  settle-Settled event p q (Simulation.failed x t reason delay) w g =
      Keeps-OnOk (Settled event p q w) (simulated_delay T R delay) _ w
        (simulated_delay-Keeps delay w)
        (λ a u (s, d). Settled-back event p q w u _ s d (fail_payment-Settled event p q reason u g))

  -- A failure of the rules is settled as such.
  charge-Settled :
      (event : OrderCreated) (p : String) (requested : Value) (vs : List PaymentRuleViolation)
      (w : World Db)
      → OnOk (Settled event p requested w) (charge T R event p requested vs w)
  unfolding is_space
  charge-Settled event p q [] w =
      >>=-OnOk (Settled event p q w) (simulate_payment_gateway _ _) _ w (λ r u h.
        let ((s, d), g) = OnOk-ok (Simulated w) _ (simulate_payment_gateway-Simulated _ _ w) h in
        Settled-back event p q w u _ s d (settle-Settled event p q r u g))
  charge-Settled event p q (v ∷ vs) w =
      fail_payment-Settled event p q _ w (concat-not_blank _ _ _ refl)

  -- What processing a payment does, if it returns: `payment.requested` is published, caused by the
  -- order's event, and then the payment is settled.
  abbrev pub Processed : OrderCreated → World Db → Unit {0} → World Db → Type 0
  Processed event w a w' =
      (n k : ℕ) × (requested : Value) × (u : World Db) × (get "eventId" requested ≡ str (H.uuid k))
      × Published payment_requested (str event.payload.order_id) (str event.event_id) requested w u
      × Settled event (H.uuid n) requested u a w'

  -- With a transport that keeps its interface: if `processPayment` returns, it has published first a
  -- `payment.requested` event that the order's event caused, and then one event that the former
  -- caused: `payment.processed` with a transaction where the payment was approved and
  -- `payment.failed` with a reason that is not blank where it was not; both are keyed by the order.
  -- After both it has saved one row, with the order, the event and that outcome, and nothing else was
  -- sent or stored.
  pub process_payment-Processed :
      (event : OrderCreated) (w : World Db) → OnOk (Processed event w) (process_payment T R event w)
  unfolding ◌>>=◌ process_payment draw
  process_payment-Processed event w =
      >>=-OnOk (Processed event w) (publish_payment_requested T R event _) _ _ (λ q u h.
        OnOk-self (Processed event w) _ (λ a w' i.
          let (e, k) =
            OnOk-ok (Requested event (record w { tick = w.tick + 1 })) _
              (publish_payment_requested-Published T L R event _ _) h in
          (
            w.tick,
            _,
            q,
            u,
            e,
            k,
            OnOk-ok (Settled event _ q u) _ (charge-Settled event _ q _ u) i,
          )))
