-- ===== src/Scripts/Partitions/Spread.antt =====
-- The histogram of the partitions.
use eventflow_kafka_microser.Prelude.{
  ◌≡◌, refl, ℕ, List, [], ◌∷◌, All, true, false, eqb, leb, length, arith, ◌↔◌, Bool-cases, ◌+◌, inl,
  inr,
}
use eventflow_kafka_microser.Scripts.Partitions.{counted, spread_from, partition_spread}

-- More than one partition has a record: none of them has all.
abbrev pub Spreads : List ℕ → Type 0
Spreads ps = (p : ℕ) → ¬ All (λ q. q ≡ p) ps

counted-length :
    (p : ℕ) (counts : List (ℕ × ℕ)) → leb (length counts) (length (counted p counts)) ≡ true
unfolding counted
counted-length p [] = refl
counted-length p ((q, n) ∷ counts) = ground (arith, counted-length p counts)

spread_from-length :
    (counts : List (ℕ × ℕ)) (ps : List ℕ)
    → leb (length counts) (length (spread_from counts ps)) ≡ true
unfolding spread_from
spread_from-length counts [] = ground arith
spread_from-length counts (p ∷ ps) =
    ground (arith, counted-length p counts, spread_from-length (counted p counts) ps)

pub one_partition :
    (p n : ℕ) (ps : List ℕ) → All (λ q. q ≡ p) ps → length (spread_from ((p, n) ∷ []) ps) ≡ 1
unfolding spread_from counted
one_partition p n [] h = refl
one_partition p n (q ∷ ps) (e, h) =
    let i : eqb p q ≡ true = ground arith in rw i (one_partition p (n + 1) ps h)

pub further_partition :
    (p n : ℕ) (ps : List ℕ)
    → leb 2 (length (spread_from ((p, n) ∷ []) ps)) ≡ false
    → All (λ q. q ≡ p) ps
unfolding spread_from counted
further_partition p n [] h = tt
further_partition p n (q ∷ ps) h = elim (Bool-cases (eqb p q)) [
  | inl e ↦ (ground arith, further_partition p (n + 1) ps (rw e at h))
  | inr e ↦
      let l = spread_from-length ((p, n) ∷ (q, 1) ∷ []) ps in
      let k : leb 2 (length (spread_from ((p, n) ∷ (q, 1) ∷ []) ps)) ≡ false = rw e at h in
      absurd (ground arith)
]

-- The histogram has two entries exactly if more than one partition has a record.
pub partition_spread-Spreads_iff :
    (ps : List ℕ) → (leb 2 (length (partition_spread ps)) ≡ true) ↔ Spreads ps
unfolding partition_spread spread_from counted
partition_spread-Spreads_iff [] = (λ h. ground arith, λ h. absurd (h 0 tt))
partition_spread-Spreads_iff (p ∷ ps) = (
  λ h q (e, a).
      let same : All (λ x. x ≡ p) ps = rw e a in
      let one = one_partition p 1 ps same in ground arith,
  λ h. elim (Bool-cases (leb 2 (length (spread_from ((p, 1) ∷ []) ps)))) [
    | inl e ↦ e
    | inr e ↦ absurd (h p (refl, further_partition p 1 ps e))
  ],
)
