-- ===== src/Kafka/Retry.antt =====
-- shared/src/kafka/retry/retry-policy.ts: the retry policy and its backoff.
pub mod Backoff
pub mod Executor
use eventflow_kafka_microser.Prelude.{
  String, ◌≡◌, Option, none, some, concat, if◌then◌else◌, Bool, ℕ, List, ◌∷◌, [], suc, zero, join,
  map,
}
use eventflow_kafka_microser.Js.Value.{Num}
use eventflow_kafka_microser.Js.Host.{Host, int, min_num}
use eventflow_kafka_microser.Js.Text.{is_empty, trim}

pub record RetryPolicyConfig : Type 0 where
  pub max_attempts : Num
  pub base_delay_ms : Num
  pub max_delay_ms : Num
  pub backoff_multiplier : Num

-- `Partial<RetryPolicyConfig>`
pub record PolicyOverrides : Type 0 where
  pub max_attempts : Option Num
  pub base_delay_ms : Option Num
  pub max_delay_ms : Option Num
  pub backoff_multiplier : Option Num

abbrev pub no_overrides : PolicyOverrides
no_overrides = record {
  max_attempts = none;
  base_delay_ms = none;
  max_delay_ms = none;
  backoff_multiplier = none;
}

-- `a ?? b`
abbrev pub or_else_env : Option String → Option String → Option String
or_else_env none b = b
or_else_env (some a) b = some a

abbrev override : Option Num → Num → Num
override none x = x
override (some y) x = y

-- `{ ...config, ...overrides }`
abbrev pub with_overrides : PolicyOverrides → RetryPolicyConfig → RetryPolicyConfig
with_overrides o c = record {
  max_attempts = override o.max_attempts c.max_attempts;
  base_delay_ms = override o.base_delay_ms c.base_delay_ms;
  max_delay_ms = override o.max_delay_ms c.max_delay_ms;
  backoff_multiplier = override o.backoff_multiplier c.backoff_multiplier;
}

module _ ⦃H : Host⦄ where
  abbrev pub default_retry_policy : RetryPolicyConfig
  default_retry_policy = record {
    max_attempts = int 3;
    base_delay_ms = int 1000;
    max_delay_ms = int 30000;
    backoff_multiplier = int 2;
  }

  unfoldable pub resolve_retry_number : Option String → Num → Num
  resolve_retry_number none fallback = fallback
  resolve_retry_number (some raw) fallback =
      if is_empty (trim raw)
      then fallback
      else if H.is_finite (H.parse raw)
      then H.parse raw
      else fallback

  -- The four variables whose names begin with the prefix, each before the shared one.
  abbrev resolve_prefixed : String → RetryPolicyConfig → RetryPolicyConfig
  resolve_prefixed prefix fallback =
      let var = λ (name : String).
        or_else_env (H.env (concat (prefix ∷ name ∷ [])))
          (H.env (concat ("KAFKA_RETRY_" ∷ name ∷ []))) in
      record {
        max_attempts = resolve_retry_number (var "MAX_ATTEMPTS") fallback.max_attempts;
        base_delay_ms = resolve_retry_number (var "BASE_DELAY_MS") fallback.base_delay_ms;
        max_delay_ms = resolve_retry_number (var "MAX_DELAY_MS") fallback.max_delay_ms;
        backoff_multiplier =
            resolve_retry_number (var "BACKOFF_MULTIPLIER") fallback.backoff_multiplier;
      }

  unfoldable pub resolve_retry_policy : PolicyOverrides → RetryPolicyConfig
  resolve_retry_policy overrides = with_overrides overrides (record {
    max_attempts =
        resolve_retry_number (H.env "KAFKA_RETRY_MAX_ATTEMPTS") default_retry_policy.max_attempts;
    base_delay_ms =
        resolve_retry_number (H.env "KAFKA_RETRY_BASE_DELAY_MS") default_retry_policy.base_delay_ms;
    max_delay_ms =
        resolve_retry_number (H.env "KAFKA_RETRY_MAX_DELAY_MS") default_retry_policy.max_delay_ms;
    backoff_multiplier =
        resolve_retry_number (H.env "KAFKA_RETRY_BACKOFF_MULTIPLIER")
          default_retry_policy.backoff_multiplier;
  })

  unfoldable pub resolve_consumer_retry_policy : PolicyOverrides → RetryPolicyConfig
  unfolding concat
  resolve_consumer_retry_policy overrides =
      with_overrides overrides
        (resolve_prefixed "KAFKA_CONSUMER_RETRY_" (resolve_retry_policy no_overrides))

  -- shared/src/kafka/producer-retry-policy.ts
  unfoldable pub resolve_producer_retry_policy : PolicyOverrides → RetryPolicyConfig
  unfolding concat
  resolve_producer_retry_policy overrides =
      with_overrides overrides
        (resolve_prefixed "KAFKA_PRODUCER_RETRY_" (resolve_retry_policy no_overrides))

  unfoldable pub calculate_backoff_ms : Num → RetryPolicyConfig → Num
  calculate_backoff_ms attempt config =
      if H.le attempt (int 0)
      then int 0
      else min_num
          (H.mul config.base_delay_ms (H.pow config.backoff_multiplier (H.sub attempt (int 1))))
          config.max_delay_ms

  unfoldable pub should_retry : Num → RetryPolicyConfig → Bool
  should_retry next_attempt config = H.lt next_attempt config.max_attempts

  unfoldable pub should_send_to_dlq : Num → RetryPolicyConfig → Bool
  should_send_to_dlq next_attempt config = H.le config.max_attempts next_attempt

  -- The loop of `getRetryBackoffSchedule`, with fuel.
  unfoldable pub backoffs_from : ℕ → ℕ → RetryPolicyConfig → List Num
  backoffs_from zero attempt config = []
  backoffs_from (suc fuel) attempt config =
      let rest = backoffs_from fuel (suc attempt) config in
      if H.lt (int attempt) config.max_attempts
      then calculate_backoff_ms (int attempt) config ∷ rest
      else []

  -- As much fuel as there are whole numbers up to `maxAttempts`.
  unfoldable pub get_retry_backoff_schedule : RetryPolicyConfig → List Num
  get_retry_backoff_schedule config = backoffs_from (H.floor config.max_attempts) 1 config

  unfoldable pub format_consumer_retry_policy : RetryPolicyConfig → String
  unfolding concat join
  format_consumer_retry_policy policy = join " " (
      concat ("maxAttempts=" ∷ H.print policy.max_attempts ∷ [])
      ∷ concat ("baseDelayMs=" ∷ H.print policy.base_delay_ms ∷ [])
      ∷ concat ("maxDelayMs=" ∷ H.print policy.max_delay_ms ∷ [])
      ∷ concat ("backoffMultiplier=" ∷ H.print policy.backoff_multiplier ∷ [])
      ∷ concat (
          "backoffSchedule=["
          ∷ join "ms, " (map H.print (get_retry_backoff_schedule policy))
          ∷ "ms]"
          ∷ [])
      ∷ [])
