-- ===== src/Kafka/Retry/Backoff.antt =====
-- The delays of a policy of whole numbers, computed with the natural numbers.
use eventflow_kafka_microser.Prelude.{
  ℕ, zero, suc, ◌+◌, ◌*◌, ◌^◌, ◌≤◌, ◌<◌, ◌≡◌, ◌∙◌, ap, List, [], ◌∷◌, true, false, All, arith, ltb,
  if◌then◌else◌,
}
use eventflow_kafka_microser.Js.Value.{Num}
use eventflow_kafka_microser.Js.Host.{Host, int}
use eventflow_kafka_microser.Js.Host.Laws.{
  WholeNumbers, WholeArithmetic, max_safe_integer, min_num-int,
}
use eventflow_kafka_microser.Kafka.Retry.{
  RetryPolicyConfig, calculate_backoff_ms, backoffs_from, get_retry_backoff_schedule,
}
use eventflow_kafka_microser.Kafka.Producer.Exhausted.{
  leb-false, backoffs_from-nlt, ltb-false, leb-true, backoffs_from-lt, lt-max,
}

-- The smaller of the two.
abbrev pub capped : ℕ → ℕ → ℕ
capped limit n = if ltb limit n then limit else n

capped-le : (limit n : ℕ) → capped limit n ≤ limit
capped-le limit n = ground arith

module _ ⦃H : Host⦄ where
  -- base * k ^ i, base * k ^ (i + 1), and so on, each of them capped.
  abbrev pub geometric : ℕ → ℕ → ℕ → ℕ → ℕ → List Num
  geometric base k limit i zero = []
  geometric base k limit i (suc count) =
      int (capped limit (base * k ^ i)) ∷ geometric base k limit (suc i) count

-- The numbers of a policy, and that its delays are whole numbers up to `Number.MAX_SAFE_INTEGER`
-- before they are capped.
pub record WholePolicy ⦃H : Host⦄ (policy : RetryPolicyConfig) (m base limit k : ℕ) : Type 0 where
  pub attempts : policy.max_attempts ≡ int m
  pub delay : policy.base_delay_ms ≡ int base
  pub cap : policy.max_delay_ms ≡ int limit
  pub multiplier : policy.backoff_multiplier ≡ int k
  pub attempts_small : m ≤ max_safe_integer
  pub cap_small : limit ≤ max_safe_integer
  pub power_small : (i : ℕ) → suc i < m → k ^ i ≤ max_safe_integer
  pub delay_small : (i : ℕ) → suc i < m → base * k ^ i ≤ max_safe_integer

module _ ⦃H : Host⦄ (N : WholeNumbers H) (A : WholeArithmetic H) (policy : RetryPolicyConfig)
    (m base limit k : ℕ) (W : WholePolicy policy m base limit k) where
  minus_one : (i : ℕ) → suc i < m → H.sub (int (suc i)) (int 1) ≡ int i
  minus_one i h =
      A.sub_int (suc i) 1 (omega (arith, W.attempts_small)) (omega arith) ∙ ap int (omega arith)

  calculate_backoff_ms-int :
      (i : ℕ)
      → suc i < m
      → calculate_backoff_ms (int (suc i)) policy ≡ int (capped limit (base * k ^ i))
  unfolding calculate_backoff_ms
  calculate_backoff_ms-int i h =
      let first : H.le (int (suc i)) (int 0) ≡ false =
        N.le_int (suc i) 0 (omega (arith, W.attempts_small)) (ground arith)
        ∙ leb-false (suc i) 0 (omega arith) in
      let product : H.mul policy.base_delay_ms
            (H.pow policy.backoff_multiplier (H.sub (int (suc i)) (int 1)))
          ≡ int (base * k ^ i) =
        rw (W.delay, W.multiplier, minus_one i h, A.pow_int k i (W.power_small i h))
          (A.mul_int base (k ^ i) (W.delay_small i h)) in
      rw (first, product, W.cap)
        (min_num-int N A (base * k ^ i) limit (W.delay_small i h) W.cap_small)

  backoffs_from-geometric :
      (count i : ℕ)
      → suc i + count ≡ m
      → backoffs_from (suc count) (suc i) policy ≡ geometric base k limit i count
  backoffs_from-geometric zero i e = backoffs_from-nlt policy 0 (suc i) (
      rw W.attempts (
        N.lt_int (suc i) m (omega (arith, W.attempts_small)) W.attempts_small
        ∙ ltb-false (suc i) m (omega arith)))
  backoffs_from-geometric (suc count) i e =
      backoffs_from-lt policy (suc count) (suc i)
        (lt-max policy N m W.attempts W.attempts_small (suc i) (omega arith))
      ∙ rw (calculate_backoff_ms-int i (omega arith)) (
          ap (λ l. int (capped limit (base * k ^ i)) ∷ l)
            (backoffs_from-geometric count (suc i) (omega arith)))

  geometric-capped :
      (count i : ℕ) → All (λ x. H.le x (int limit) ≡ true) (geometric base k limit i count)
  geometric-capped zero i = tt
  geometric-capped (suc count) i = (
    N.le_int (capped limit (base * k ^ i)) limit
          (omega (arith, W.cap_small, capped-le limit (base * k ^ i))) W.cap_small
        ∙ leb-true (capped limit (base * k ^ i)) limit (capped-le limit (base * k ^ i)),
    geometric-capped count (suc i),
  )

  -- For a policy of whole numbers, of f + 1 attempts, `getRetryBackoffSchedule` is the f delays base,
  -- base * k, base * k ^ 2 and so on, each capped at the greatest delay, and so none of them is
  -- longer than that delay. The delays before they are capped are up to `Number.MAX_SAFE_INTEGER`,
  -- and whole numbers up to that are exact.
  pub get_retry_backoff_schedule-geometric :
      (f : ℕ)
      → m ≡ suc f
      → (get_retry_backoff_schedule policy ≡ geometric base k limit 0 f)
        × All (λ x. H.le x (int limit) ≡ true) (get_retry_backoff_schedule policy)
  unfolding get_retry_backoff_schedule
  get_retry_backoff_schedule-geometric f e =
      let whole : get_retry_backoff_schedule policy ≡ geometric base k limit 0 f =
        ap (λ n. backoffs_from n 1 policy)
          (ap H.floor W.attempts ∙ N.floor_int m W.attempts_small ∙ e)
        ∙ backoffs_from-geometric f 0 (omega arith) in
      (whole, rw whole (geometric-capped f 0))
