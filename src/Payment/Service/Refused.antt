-- ===== src/Payment/Service/Refused.antt =====
-- Processing a payment whose row is refused: what was published stays published.
use eventflow_kafka_microser.Prelude.{
  ◌≡◌, refl, String, some, ◌==◌, false, ℕ, List, [], ◌∷◌, ◌++◌, ◌∙◌, ap, append_assoc, ◌+◌,
}
use eventflow_kafka_microser.Js.Io.{World, ◌>>=◌, draw}
use eventflow_kafka_microser.Js.Io.Laws.{Keeps}
use eventflow_kafka_microser.Js.Io.Returns.{Throws, >>=-Throws}
use eventflow_kafka_microser.Js.Host.{Host, int, Message}
use eventflow_kafka_microser.Js.Errors.{Thrown, Result, ok, err}
use eventflow_kafka_microser.Js.Value.{Value, get}
use eventflow_kafka_microser.Events.Topics.{resolve_kafka_topic}
use eventflow_kafka_microser.Events.Types.{payment_requested}
use eventflow_kafka_microser.Kafka.Publisher.Reliable.{Reliable}
use eventflow_kafka_microser.Kafka.Publisher.Laws.{Transports}
use eventflow_kafka_microser.Kafka.Publisher.{KafkaEventTransport}
use eventflow_kafka_microser.Payment.Order.{OrderCreated}
use eventflow_kafka_microser.Payment.Idempotency.{
  ProcessedEventRepository, ProcessedEvent, ProcessedEventOutcome, approved, record_processed,
}
use eventflow_kafka_microser.Payment.Simulator.{
  FailureScenario, scenario_at, payment_failure_scenarios, Simulation, simulate_payment_gateway,
}
use eventflow_kafka_microser.Payment.Service.{
  publish_payment_requested, fail_payment, approve_payment, simulated_delay, process_payment,
  publish_payment_failed, publish_payment_processed, settle, charge,
}
use eventflow_kafka_microser.Payment.Rules.{PaymentRuleViolation}
use eventflow_kafka_microser.Payment.Service.Tells.{
  outcome_event, Tells, Requested, publish_payment_failed-Tells, publish_payment_processed-Tells,
  publish_payment_requested-Published,
}
use eventflow_kafka_microser.Payment.Service.Total.{
  simulated_delay-Returns, publish_payment_failed-Returns, publish_payment_processed-Returns,
  publish_payment_requested-Returns, simulate_payment_gateway-Returns,
}
use eventflow_kafka_microser.Payment.Service.Laws.{simulated_delay-Keeps}
use eventflow_kafka_microser.Payment.Simulator.Laws.{Simulated, simulate_payment_gateway-Simulated}

module _ ⦃H : Host⦄ {Db : Type 0} (T : KafkaEventTransport Db) (L : Transports T) (Y : Reliable T)
    (R : ProcessedEventRepository Db) (event : OrderCreated)
    (e : (event.payload.order_id == "") ≡ false)
    (refuses : (n : ℕ) (row : ProcessedEvent) → (x : Thrown) × (R.save_error n row ≡ some x)) where
  -- An outcome was published, and the store is as before.
  abbrev pub Untold : World Db → World Db → Type 0
  Untold w w' =
      (o : ProcessedEventOutcome) × (m : Message) × (m.topic
        ≡ resolve_kafka_topic (outcome_event o))
      × (w'.sent ≡ w.sent ++ m ∷ [])
      × (w'.db ≡ w.db)

  record_processed-Throws :
      (row : ProcessedEvent) (w : World Db)
      → Throws (λ w'. (w'.sent ≡ w.sent) × (w'.db ≡ w.db)) (record_processed R row w)
  unfolding ◌>>=◌ record_processed draw
  record_processed-Throws row w = let (x, h) = refuses w.tick row in rw h (refl, refl)

  Throws-map :
      {A : Type 0} (P Q : World Db → Type 0) (r : Result A × World Db)
      → ((w : World Db) → P w → Q w)
      → Throws P r
      → Throws Q r
  Throws-map P Q (ok a, w) f h = h
  Throws-map P Q (err x, w) f h = f w h

  Tells-Untold :
      (o : ProcessedEventOutcome) (p d : String) (c : Value) (row : ProcessedEvent) (w : World Db)
      (a : Unit {0}) (v : World Db)
      → Tells o p event.payload.order_id d c w a v
      → Throws (Untold w) (record_processed R row v)
  Tells-Untold o p d c row w a v (x, i, (m, t, k, y, s, (sent, db))) =
      Throws-map (λ w'. (w'.sent ≡ v.sent) × (w'.db ≡ v.db)) (Untold w) _
        (λ w' (f, g). (o, m, t, f ∙ sent, g ∙ db)) (record_processed-Throws row v)

  fail_payment-Throws :
      (p : String) (q : Value) (reason : String) (w : World Db)
      → Throws (Untold w) (fail_payment T R event p q reason w)
  unfolding fail_payment
  fail_payment-Throws p q reason w =
      >>=-Throws
        (Tells ProcessedEventOutcome.failed p event.payload.order_id reason (get "eventId" q) w)
        (Untold w) (publish_payment_failed T R p _ reason _) _ w
        (publish_payment_failed-Returns T Y R event e p reason _ w)
        (publish_payment_failed-Tells T L R p _ reason (get "eventId" q) w)
        (λ a v h. Tells-Untold ProcessedEventOutcome.failed p reason (get "eventId" q) _ w a v h)

  approve_payment-Throws :
      (p : String) (q : Value) (w : World Db) → Throws (Untold w) (approve_payment T R event p q w)
  unfolding ◌>>=◌ approve_payment draw
  approve_payment-Throws p q w =
      let u : World Db = record w { tick = w.tick + 1 } in
      >>=-Throws (Tells approved p event.payload.order_id (H.uuid w.tick) (get "eventId" q) u)
        (Untold w) (publish_payment_processed T R p _ (H.uuid w.tick) (get "eventId" q)) _ u
        (publish_payment_processed-Returns T Y R event e p _ _ u)
        (publish_payment_processed-Tells T L R p _ (H.uuid w.tick) (get "eventId" q) u)
        (λ a v h. Tells-Untold approved p (H.uuid w.tick) (get "eventId" q) _ u a v h)

  -- The same from an earlier state, between which and this one nothing was sent or stored.
  Untold-back :
      {A : Type 0} (w u : World Db) (r : Result A × World Db)
      → u.sent ≡ w.sent
      → u.db ≡ w.db
      → Throws (Untold u) r
      → Throws (Untold w) r
  Untold-back w u r s d h =
      Throws-map (Untold u) (Untold w) r
        (λ w' (o, m, t, f, g). (o, m, t, f ∙ ap (λ l. l ++ m ∷ []) s, g ∙ d)) h

  settle-Throws :
      (p : String) (q : Value) (r : Simulation) (w : World Db)
      → Throws (Untold w) (settle T R event p q r w)
  settle-Throws p q (Simulation.approved x) w = approve_payment-Throws p q w
  settle-Throws p q (Simulation.failed x t reason delay) w =
      >>=-Throws (Keeps w) (Untold w) (simulated_delay T R delay) _ w
        (simulated_delay-Returns T Y R event e delay w) (simulated_delay-Keeps T L R delay w)
        (λ a u (s, d). Untold-back w u _ s d (fail_payment-Throws p q reason u))

  module _
      (picks : (n : ℕ)
        → (s : FailureScenario) × (scenario_at payment_failure_scenarios
              (H.floor (H.mul (H.random n) (int 4)))
            ≡ some s)) where
    charge-Throws :
        (p : String) (q : Value) (vs : List PaymentRuleViolation) (w : World Db)
        → Throws (Untold w) (charge T R event p q vs w)
    charge-Throws p q [] w =
        >>=-Throws (Simulated w) (Untold w) (simulate_payment_gateway _ _) _ w
          (simulate_payment_gateway-Returns picks _ _ w) (simulate_payment_gateway-Simulated _ _ w)
          (λ r u ((s, d), g). Untold-back w u _ s d (settle-Throws p q r u))
    charge-Throws p q (v ∷ vs) w = fail_payment-Throws p q _ w

    -- Both records were accepted, and the store is as before.
    abbrev pub Unrecorded : World Db → World Db → Type 0
    Unrecorded w w' =
        (requested m : Message) × (o : ProcessedEventOutcome) × (requested.topic
          ≡ resolve_kafka_topic payment_requested)
        × (m.topic ≡ resolve_kafka_topic (outcome_event o))
        × (w'.sent ≡ w.sent ++ requested ∷ m ∷ [])
        × (w'.db ≡ w.db)

    -- With a table that refuses every row, and where everything else succeeds, `processPayment`
    -- throws when both its events are published: `payment.requested` and the event that tells of an
    -- outcome. The table is as before, so nothing keeps a delivery again from charging again. The
    -- order id is not empty, the random numbers pick one of the four scenarios, and the transport
    -- publishes and keeps its interface.
    pub process_payment-Unrecorded :
        (w : World Db) → Throws (Unrecorded w) (process_payment T R event w)
    unfolding ◌>>=◌ process_payment draw
    process_payment-Unrecorded w =
        let u : World Db = record w { tick = w.tick + 1 } in
        >>=-Throws (Requested event u) (Unrecorded w) (publish_payment_requested T R event _) _ u
          (publish_payment_requested-Returns T Y R event e _ u)
          (publish_payment_requested-Published T L R event _ u)
          (λ q v (i, (m, t, k, y, s, (sent, db))).
            Throws-map (Untold v) (Unrecorded w) _
              (λ w' (o, m', t', f, g). (
                m,
                m',
                o,
                t,
                t',
                f ∙ ap (λ l. l ++ m' ∷ []) sent ∙ append_assoc w.sent _ _,
                g ∙ db,
              ))
              (charge-Throws _ q _ v))
