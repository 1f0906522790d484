-- ===== src/Scripts/Probes.antt =====
-- scripts/verify-kafka-partitions.mjs: the probe that sends records with one key. The partition that the
-- broker answers is a parameter, by the number of the record and by its key.
use eventflow_kafka_microser.Prelude.{
  ◌≡◌, ℕ, suc, zero, String, List, [], ◌∷◌, All, true, eqb, length, concat, arith, ◌↔◌, ◌+◌, map,
  join,
}
use eventflow_kafka_microser.Js.Errors.{Result, ok}
use eventflow_kafka_microser.Js.Host.{Host, int}
use eventflow_kafka_microser.Scripts.{assert}
use eventflow_kafka_microser.Scripts.Partitions.{partition_spread, spread_from, counted}
use eventflow_kafka_microser.Scripts.Flows.Passes.{assert_iff}
use eventflow_kafka_microser.Scripts.Partitions.Spread.{further_partition, one_partition}

-- The partitions of as many records, from a number on.
unfoldable pub produced : (ℕ → String → ℕ) → String → ℕ → ℕ → List ℕ
produced broker key zero i = []
produced broker key (suc n) i = broker i key ∷ produced broker key n (i + 1)

abbrev sticky_key : String
sticky_key = "order-sticky-abc"

module _ ⦃H : Host⦄ where
  -- `testKeyOrdering`: of its set of partitions only the size is asserted.
  unfoldable pub test_key_ordering : (ℕ → String → ℕ) → Result (Unit {0})
  test_key_ordering broker =
      let partitions = produced broker sticky_key 5 0 in
      assert (eqb (length (partition_spread partitions)) 1) (
        concat (
          "Expected one partition for key "
          ∷ sticky_key
          ∷ ", got "
          ∷ join ", " (map (λ (p, n). H.print (int p)) (partition_spread partitions))
          ∷ []))

  one_iff :
      (p : ℕ) (ps : List ℕ)
      → (eqb (length (partition_spread (p ∷ ps))) 1 ≡ true) ↔ All (λ q. q ≡ p) ps
  unfolding partition_spread spread_from counted
  one_iff p ps = (
    λ h. further_partition p 1 ps (ground arith),
    λ h. let one = one_partition p 1 ps h in ground arith,
  )

  -- The probe finds no fault exactly if the broker answers all five records with one partition.
  pub test_key_ordering_iff :
      (broker : ℕ → String → ℕ)
      → (test_key_ordering broker ≡ ok tt)
        ↔ All (λ q. q ≡ broker 0 sticky_key) (produced broker sticky_key 4 1)
  unfolding test_key_ordering produced
  test_key_ordering_iff broker =
      let (to, from) = one_iff (broker 0 sticky_key) (produced broker sticky_key 4 1) in
      (λ h. to ((assert_iff _ _).0 h), λ h. (assert_iff _ _).1 (from h))
