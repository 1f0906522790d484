-- ===== src/Payment/Simulator/Laws.antt =====
-- The simulated gateway sends and stores nothing.
use eventflow_kafka_microser.Prelude.{
  refl, Bool, true, false, not, Option, none, some, String, ◌∙◌, List, ◌≡◌, ℕ, All, ◌∷◌, subst, suc,
  [], zero,
}
use eventflow_kafka_microser.Js.Io.{World, ◌>>=◌, draw, lift}
use eventflow_kafka_microser.Js.Io.Laws.{OnOk, if-OnOk, Keeps, Keeps-OnOk, >>=-OnOk, OnOk-ok}
use eventflow_kafka_microser.Js.Host.{Host}
use eventflow_kafka_microser.Js.Value.{Num}
use eventflow_kafka_microser.Payment.Simulator.{
  pick_simulated_failure, decide_failure, payment_id_of, simulate_payment_gateway,
  SimulationOptions, Simulation, FailureScenario, failure_of, scenario_at,
  payment_failure_scenarios, fail_with,
}
use eventflow_kafka_microser.Js.Text.{not_blank, trim, trim_start, trim_end, is_empty, is_space}

-- The reason of a failure is not blank.
abbrev pub HasReason : Simulation → Type 0
HasReason (Simulation.approved id) = Unit
HasReason (Simulation.failed id t reason delay) = not_blank reason ≡ true

scenario_at-not_blank :
    (ss : List FailureScenario) (i : ℕ) (s : FailureScenario)
    → All (λ (x : FailureScenario). not_blank x.message ≡ true) ss
    → scenario_at ss i ≡ some s
    → not_blank s.message ≡ true
scenario_at-not_blank [] i s h e = cc
scenario_at-not_blank (x ∷ xs) zero s h e =
    subst (λ o. elim o [ none ↦ Unit | some y ↦ not_blank y.message ≡ true ]) e h.0
scenario_at-not_blank (x ∷ xs) (suc i) s h e = scenario_at-not_blank xs i s h.1 e

scenarios-not_blank :
    All (λ (x : FailureScenario). not_blank x.message ≡ true) payment_failure_scenarios
unfolding not_blank trim trim_start trim_end is_empty is_space
scenarios-not_blank = (refl, (refl, (refl, (refl, tt))))

module _ ⦃H : Host⦄ {Db : Type 0} where
  -- A scenario of the table was picked, if any; nothing was sent or stored.
  abbrev Picked : World Db → Option FailureScenario → World Db → Type 0
  Picked w o w' = Keeps w o w' × ((s : FailureScenario) → o ≡ some s → not_blank s.message ≡ true)

  pick_simulated_failure-Picked : (w : World Db) → OnOk (Picked w) (pick_simulated_failure w)
  unfolding ◌>>=◌ pick_simulated_failure draw
  pick_simulated_failure-Picked w = (
    (refl, refl),
    λ s e. scenario_at-not_blank payment_failure_scenarios _ s scenarios-not_blank e,
  )

  decide_failure-Keeps :
      (force : Bool) (rate : Num) (w : World Db) → OnOk (Keeps w) (decide_failure force rate w)
  unfolding ◌>>=◌ draw
  decide_failure-Keeps true rate w = (refl, refl)
  decide_failure-Keeps false rate w = (refl, refl)

  payment_id_of-Keeps : (id : Option String) (w : World Db) → OnOk (Keeps w) (payment_id_of id w)
  unfolding draw
  payment_id_of-Keeps none w = (refl, refl)
  payment_id_of-Keeps (some id) w = (refl, refl)

  -- The gateway answered; a failure has a reason, and nothing was sent or stored.
  abbrev pub Simulated : World Db → Simulation → World Db → Type 0
  Simulated w r w' = Keeps w r w' × HasReason r

  failed-Simulated :
      (id : String) (o : Option FailureScenario) (w x : World Db)
      → Keeps w tt x
      → ((s : FailureScenario) → o ≡ some s → not_blank s.message ≡ true)
      → OnOk (Simulated w) (lift (fail_with id o) x)
  unfolding failure_of
  failed-Simulated id none w x k g = tt
  failed-Simulated id (some s) w x k g = (k, g s refl)

  pub simulate_payment_gateway-Simulated :
      (order_id : String) (options : SimulationOptions) (w : World Db)
      → OnOk (Simulated w) (simulate_payment_gateway order_id options w)
  unfolding simulate_payment_gateway failure_of
  simulate_payment_gateway-Simulated o p w =
      Keeps-OnOk (Simulated w) (payment_id_of p.payment_id) _ w (payment_id_of-Keeps p.payment_id w)
        (λ id u (s, d).
          Keeps-OnOk (Simulated w) (decide_failure _ _) _ u (decide_failure-Keeps _ _ u)
            (λ b v (s', d').
              if-OnOk (Simulated w) (not b) _ _ v (λ h. ((s' ∙ s, d' ∙ d), tt))
                (λ h. >>=-OnOk (Simulated w) pick_simulated_failure _ v (λ c x e.
                  let ((s2, d2), g) = OnOk-ok (Picked v) _ (pick_simulated_failure-Picked v) e in
                  failed-Simulated id c w x (s2 ∙ s' ∙ s, d2 ∙ d' ∙ d) g))))
