-- ===== src/Payment/Service/Total.antt =====
-- Processing a payment returns where nothing refuses it.
use eventflow_kafka_microser.Prelude.{
  ◌≡◌, refl, String, Option, none, some, ◌==◌, Bool, true, false, ℕ, List, [], ◌∷◌, not, ◌&&◌,
}
use eventflow_kafka_microser.Js.Io.{World, ◌>>=◌, draw, sleep, lift}
use eventflow_kafka_microser.Js.Io.Returns.{Returns, >>=-Returns, if-Returns, >>=-Returns_known}
use eventflow_kafka_microser.Js.Host.{Host, int, truthy_num, is_object}
use eventflow_kafka_microser.Js.Value.{Value, Num, str, end, get, prop}
use eventflow_kafka_microser.Events.Types.{
  EventType, payment_requested, payment_processed, payment_failed,
}
use eventflow_kafka_microser.Kafka.Publisher.Reliable.{Reliable}
use eventflow_kafka_microser.Kafka.Retry.Executor.Total.{event_message-exists}
use eventflow_kafka_microser.Payment.Order.{OrderCreated}
use eventflow_kafka_microser.Payment.Simulator.{
  FailureScenario, scenario_at, payment_failure_scenarios, pick_simulated_failure, decide_failure,
  payment_id_of, simulate_payment_gateway, Simulation, SimulationOptions, fail_with,
}
use eventflow_kafka_microser.Kafka.Publisher.{KafkaEventTransport}
use eventflow_kafka_microser.Payment.Idempotency.{
  ProcessedEventRepository, ProcessedEvent, record_processed,
}
use eventflow_kafka_microser.Kafka.Wire.{resolve_partition_key, get_partition_key_from_payload}
use eventflow_kafka_microser.Payment.Service.{
  publish_payment_requested, fail_payment, approve_payment, simulated_delay, process_payment,
  publish_payment_failed, publish_payment_processed, settle, charge,
}
use eventflow_kafka_microser.Payment.Rules.{PaymentRuleViolation}
use eventflow_kafka_microser.Events.Envelope.{create_event_envelope, event_params, envelope_object}
use eventflow_kafka_microser.Js.Io.Laws.{OnOk}

module _ ⦃H : Host⦄ {Db : Type 0}
    (picks : (n : ℕ)
      → (s : FailureScenario) × (scenario_at payment_failure_scenarios
            (H.floor (H.mul (H.random n) (int 4)))
          ≡ some s)) where
  -- The failure that was picked is one of the scenarios.
  abbrev Picks : Option FailureScenario → World Db → Type 0
  Picks o w = (s : FailureScenario) × (o ≡ some s)

  pick_simulated_failure-Picks :
      (w : World Db) → Returns (pick_simulated_failure w) × OnOk Picks (pick_simulated_failure w)
  unfolding ◌>>=◌ pick_simulated_failure draw
  pick_simulated_failure-Picks w = (tt, picks w.tick)

  fail_with-Returns :
      (id : String) (o : Option FailureScenario) (w : World Db)
      → Picks o w
      → Returns (lift (fail_with id o) w)
  fail_with-Returns id o w (s, e) = rw e tt

  decide_failure-Returns :
      (force : Bool) (rate : Num) (w : World Db) → Returns (decide_failure force rate w)
  unfolding ◌>>=◌ draw
  decide_failure-Returns true rate w = tt
  decide_failure-Returns false rate w = tt

  payment_id_of-Returns : (id : Option String) (w : World Db) → Returns (payment_id_of id w)
  unfolding draw
  payment_id_of-Returns none w = tt
  payment_id_of-Returns (some id) w = tt

  pub simulate_payment_gateway-Returns :
      (order_id : String) (options : SimulationOptions) (w : World Db)
      → Returns (simulate_payment_gateway order_id options w)
  unfolding simulate_payment_gateway
  simulate_payment_gateway-Returns o p w =
      >>=-Returns (payment_id_of p.payment_id) _ w (payment_id_of-Returns p.payment_id w) (λ id u.
        >>=-Returns (decide_failure _ _) _ u (decide_failure-Returns _ _ u) (λ b v.
          if-Returns (not b) _ _ v tt (
            let (returns, known) = pick_simulated_failure-Picks v in
            >>=-Returns_known Picks pick_simulated_failure _ v returns known
              (λ o x k. fail_with-Returns id o x k))))

module _ ⦃H : Host⦄ {Db : Type 0} (T : KafkaEventTransport Db) (L : Reliable T)
    (R : ProcessedEventRepository Db) where
  publish-Returns :
      (t : EventType) (v : Value) (order_id : String) (w : World Db)
      → (order_id == "") ≡ false
      → get "orderId" (get "payload" v) ≡ str order_id
      → is_object (get "payload" v) ≡ true
      → Returns (T.publish t v end w)
  unfolding resolve_partition_key get_partition_key_from_payload
  publish-Returns t v o w e k b =
      let (m, q) = event_message-exists t v end o (rw (b, k, e) refl) in
      L.publish-Returns t v end m w q

  module _ (event : OrderCreated) (e : (event.payload.order_id == "") ≡ false) where
    pub publish_payment_requested-Returns :
        (p : String) (w : World Db) → Returns (publish_payment_requested T R event p w)
    unfolding ◌>>=◌ publish_payment_requested create_event_envelope event_params draw
        envelope_object get prop
    publish_payment_requested-Returns p w =
        >>=-Returns (T.publish payment_requested _ end) _ _
          (publish-Returns payment_requested _ event.payload.order_id _ e refl refl) (λ a v. tt)

    pub publish_payment_failed-Returns :
        (p reason : String) (cause : Value) (w : World Db)
        → Returns (publish_payment_failed T R p event.payload.order_id reason cause w)
    unfolding ◌>>=◌ publish_payment_failed create_event_envelope event_params draw envelope_object
        get prop
    publish_payment_failed-Returns p reason cause w =
        publish-Returns payment_failed _ event.payload.order_id _ e refl refl

    pub publish_payment_processed-Returns :
        (p id : String) (cause : Value) (w : World Db)
        → Returns (publish_payment_processed T R p event.payload.order_id id cause w)
    unfolding ◌>>=◌ publish_payment_processed create_event_envelope event_params draw
        envelope_object get prop
    publish_payment_processed-Returns p id cause w =
        publish-Returns payment_processed _ event.payload.order_id _ e refl refl

    pub simulated_delay-Returns :
        (delay : Option Num) (w : World Db) → Returns (simulated_delay T R delay w)
    unfolding sleep
    simulated_delay-Returns none w = tt
    simulated_delay-Returns (some ms) w = if-Returns (truthy_num ms && H.lt (int 0) ms) _ _ w tt tt

  module _ (event : OrderCreated) (e : (event.payload.order_id == "") ≡ false)
      (saves : (n : ℕ) (row : ProcessedEvent) → R.save_error n row ≡ none) where
    record_processed-Returns :
        (row : ProcessedEvent) (w : World Db) → Returns (record_processed R row w)
    unfolding ◌>>=◌ record_processed draw
    record_processed-Returns row w = rw (saves w.tick row) tt

    fail_payment-Returns :
        (p : String) (q : Value) (reason : String) (w : World Db)
        → Returns (fail_payment T R event p q reason w)
    unfolding fail_payment
    fail_payment-Returns p q reason w =
        >>=-Returns (publish_payment_failed T R p _ reason _) _ w
          (publish_payment_failed-Returns event e p reason _ w)
          (λ a v. record_processed-Returns _ v)

    approve_payment-Returns :
        (p : String) (q : Value) (w : World Db) → Returns (approve_payment T R event p q w)
    unfolding ◌>>=◌ approve_payment draw
    approve_payment-Returns p q w =
        >>=-Returns (publish_payment_processed T R p _ _ _) _ _
          (publish_payment_processed-Returns event e p _ _ _) (λ a v. record_processed-Returns _ v)

    settle-Returns :
        (p : String) (q : Value) (r : Simulation) (w : World Db)
        → Returns (settle T R event p q r w)
    settle-Returns p q (Simulation.approved x) w = approve_payment-Returns p q w
    settle-Returns p q (Simulation.failed x t reason delay) w =
        >>=-Returns (simulated_delay T R delay) _ w (simulated_delay-Returns event e delay w)
          (λ a u. fail_payment-Returns p q reason u)

    module _
        (picks : (n : ℕ)
          → (s : FailureScenario) × (scenario_at payment_failure_scenarios
                (H.floor (H.mul (H.random n) (int 4)))
              ≡ some s)) where
      charge-Returns :
          (p : String) (q : Value) (vs : List PaymentRuleViolation) (w : World Db)
          → Returns (charge T R event p q vs w)
      charge-Returns p q [] w =
          >>=-Returns (simulate_payment_gateway _ _) _ w
            (simulate_payment_gateway-Returns picks _ _ w) (λ r u. settle-Returns p q r u)
      charge-Returns p q (v ∷ vs) w = fail_payment-Returns p q _ w

      -- With a table that saves every row, a transport that publishes, an order id that is not empty and
      -- random numbers that pick one of the four scenarios, `processPayment` returns.
      pub process_payment-Returns : (w : World Db) → Returns (process_payment T R event w)
      unfolding ◌>>=◌ process_payment draw
      process_payment-Returns w =
          >>=-Returns (publish_payment_requested T R event _) _ _
            (publish_payment_requested-Returns event e _ _) (λ q u. charge-Returns _ q _ u)
