-- ===== src/Payment/Simulator.antt =====
-- services/payment-service/src/payment/payment-simulator.ts
pub mod Laws
use eventflow_kafka_microser.Js.Io.{◌>>=◌, lift, Io, draw, pure}
use eventflow_kafka_microser.Prelude.{
  String, some, List, Option, ℕ, none, ◌∷◌, Bool, if◌then◌else◌, [], suc, false, true, not, ◌==◌,
  length, zero,
}
use eventflow_kafka_microser.Js.Host.{Host, int, is_nan, min_num, max_num}
use eventflow_kafka_microser.Js.Value.{Num}
use eventflow_kafka_microser.Payment.Rules.{env_number}
use eventflow_kafka_microser.Js.Errors.{ok, err, error, Thrown, Result}

pub data PaymentFailureType : Type 0 where
  timeout gateway_unavailable card_declined connection_reset : PaymentFailureType

pub record FailureScenario : Type 0 where
  pub type : PaymentFailureType
  pub message : String
  pub delay_ms : Option ℕ

abbrev pub timeout_scenario : FailureScenario
timeout_scenario = record {
  type = timeout;
  message = "Payment gateway timeout";
  delay_ms = some 3000;
}

-- `PAYMENT_FAILURE_SCENARIOS` behind its first entry
abbrev pub other_scenarios : List FailureScenario
other_scenarios =
    record { type = gateway_unavailable; message = "Gateway unavailable"; delay_ms = none }
    ∷ record { type = card_declined; message = "Card declined"; delay_ms = none }
    ∷ record { type = connection_reset; message = "Connection reset by peer"; delay_ms = none }
    ∷ []

abbrev pub payment_failure_scenarios : List FailureScenario
payment_failure_scenarios = timeout_scenario ∷ other_scenarios

-- `PaymentSimulationResult`; its payment id is that of the options.
pub data Simulation : Type 0 where
  approved : String → Simulation
  failed : String → PaymentFailureType → String → Option Num → Simulation

-- `PaymentSimulationOptions`
pub record SimulationOptions : Type 0 where
  pub payment_id : Option String
  pub failure_rate : Option Num
  pub force_failure : Option Bool

-- `scenarios[index]!`
abbrev pub scenario_at : List FailureScenario → ℕ → Option FailureScenario
scenario_at [] i = none
scenario_at (s ∷ ss) zero = some s
scenario_at (s ∷ ss) (suc i) = scenario_at ss i

module _ ⦃H : Host⦄ where
  unfoldable pub resolve_payment_failure_rate : Num
  resolve_payment_failure_rate =
      let raw = env_number "PAYMENT_FAILURE_RATE" (H.lit 2 1) in
      if is_nan raw then H.lit 2 1 else min_num (int 1) (max_num (int 0) raw)

  unfoldable pub is_payment_force_failure_enabled : Bool
  is_payment_force_failure_enabled = elim (H.env "PAYMENT_FORCE_FAILURE") [
    | none ↦ false
    | some s ↦ s == "true"
  ]

  -- `Number(process.env.PAYMENT_TIMEOUT_DELAY_MS ?? scenario.delayMs ?? 0)`
  abbrev default_delay : Option ℕ → Num
  default_delay none = int 0
  default_delay (some ms) = int ms

  unfoldable pub timeout_delay : FailureScenario → Num
  timeout_delay s = env_number "PAYMENT_TIMEOUT_DELAY_MS" (default_delay s.delay_ms)

  abbrev is_timeout : PaymentFailureType → Bool
  is_timeout timeout = true
  is_timeout _ = false

  unfoldable pub failure_of : String → FailureScenario → Simulation
  failure_of payment_id s =
      failed payment_id s.type s.message
        (if is_timeout s.type then some (timeout_delay s) else none)

  -- What reading a property of `undefined` throws: `type` is read first where the delay is set.
  abbrev no_scenario : Thrown
  no_scenario = elim (H.env "PAYMENT_TIMEOUT_DELAY_MS") [
    | none ↦ error "TypeError" "Cannot read properties of undefined (reading 'delayMs')"
    | some _ ↦ error "TypeError" "Cannot read properties of undefined (reading 'type')"
  ]

  -- The result of a failure, whose scenario may be `undefined`.
  abbrev pub fail_with : String → Option FailureScenario → Result Simulation
  fail_with payment_id (some s) = ok (failure_of payment_id s)
  fail_with payment_id none = err no_scenario

  abbrev pub get_or {ℓ} : {A : Type ℓ} → Option A → A → A
  get_or none d = d
  get_or (some a) d = a

  module _ {Db : Type 0} where
    -- `none` is the `undefined` that an index past the end reads.
    unfoldable pub pick_simulated_failure : Io Db (Option FailureScenario)
    pick_simulated_failure = do
      x ← draw H.random
      pure (
          scenario_at payment_failure_scenarios
            (H.floor (H.mul x (int (length payment_failure_scenarios)))))

    abbrev pub payment_id_of : Option String → Io Db String
    payment_id_of none = draw H.uuid
    payment_id_of (some id) = pure id

    -- `forceFailure || Math.random() < failureRate`
    abbrev pub decide_failure : Bool → Num → Io Db Bool
    decide_failure true failure_rate = pure true
    decide_failure false failure_rate = do x ← draw H.random; pure (H.lt x failure_rate)

    unfoldable pub simulate_payment_gateway : String → SimulationOptions → Io Db Simulation
    simulate_payment_gateway order_id options = do
      payment_id ← payment_id_of options.payment_id
      let failure_rate = get_or options.failure_rate resolve_payment_failure_rate
      let force_failure = get_or options.force_failure is_payment_force_failure_enabled
      should_fail ← decide_failure force_failure failure_rate
      if not should_fail
          then pure (approved payment_id)
          else do s ← pick_simulated_failure; lift (fail_with payment_id s)
