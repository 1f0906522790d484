-- ===== src/Scripts/Partitions/Found.antt =====
-- When the check of the partitions finds no fault.
use eventflow_kafka_microser.Prelude.{
  ◌≡◌, refl, ℕ, String, List, [], ◌∷◌, true, false, some, ltb, arith, ◌↔◌, includes, any, eq_iff,
  inl, inr, Option-cases, leb, eqb, All, ◌⊎◌, Option, length, map, Bool-cases,
}
use eventflow_kafka_microser.Js.Errors.{Result, ok, err, ◌>>◌, ◌>>=◌}
use eventflow_kafka_microser.Js.Host.{Host}
use eventflow_kafka_microser.Scripts.Partitions.{
  Seen, check_message, check_messages, check_spread, check_keys, check_flow,
}
use eventflow_kafka_microser.Scripts.{strict_equal}
use eventflow_kafka_microser.Js.Value.{str, Value, undefined}
use eventflow_kafka_microser.Scripts.Flows.Passes.{assert_iff}
use eventflow_kafka_microser.Scripts.Partitions.Spread.{partition_spread-Spreads_iff, Spreads}
use eventflow_kafka_microser.Scripts.Partitions.Placed.{
  IsPlacedBy, check_keys-places, check_keys-placed,
}

pub then_iff : (a b : Result (Unit {0})) → (a >> b ≡ ok tt) ↔ ((a ≡ ok tt) × (b ≡ ok tt))
unfolding ◌>>◌ ◌>>=◌
then_iff (ok tt) b = (λ h. (refl, h), λ (e, h). h)
then_iff (err x) b = (λ h. ground arith, λ (e, h). ground arith)

module _ ⦃H : Host⦄ where
  -- A record of one of the orders, keyed by it, from a partition of the topic.
  abbrev pub IsOfOrder : List String → ℕ → Seen → Type 0
  IsOfOrder order_ids partitions m =
      (id : String) × (m.key ≡ some id)
      × (m.order_id ≡ str id)
      × (includes order_ids id ≡ true)
      × (ltb m.partition partitions ≡ true)

  any-includes :
      (ids : List String) (k : String)
      → any (λ id. strict_equal (str id) (str k)) ids ≡ includes ids k
  unfolding strict_equal
  any-includes [] k = refl
  any-includes (i ∷ ids) k = rw (any-includes ids k) refl

  any-undefined : (ids : List String) → any (λ id. strict_equal (str id) undefined) ids ≡ false
  unfolding strict_equal
  any-undefined [] = refl
  any-undefined (i ∷ ids) = any-undefined ids

  equal_text_iff : (k : String) (v : Value) → (strict_equal (str k) v ≡ true) ↔ (v ≡ str k)
  unfolding strict_equal
  equal_text_iff k (str s) = ground (arith, eq_iff k s)
  equal_text_iff k v = ground arith

  equal_undefined : (v : Value) → strict_equal undefined v ≡ true → v ≡ undefined
  unfolding strict_equal
  equal_undefined undefined h = refl
  equal_undefined v h = ground arith

  check_message_iff :
      (ids : List String) (n : ℕ) (m : Seen) → (check_message ids n m ≡ ok tt) ↔ IsOfOrder ids n m
  unfolding check_message
  check_message_iff ids n m = elim (Option-cases m.key) [
    | inl e ↦ (
      λ h.
          let (a, r) = (then_iff _ _).0 h in
          let (b, c) = (then_iff _ _).0 r in
          let u = equal_undefined m.order_id (rw e at ((assert_iff _ _).0 a)) in
          let x = rw (u, any-undefined ids) at ((assert_iff _ _).0 b) in absurd (ground arith),
      λ (id, f, u, i, p). absurd (ground arith),
    )
    | inr (k, e) ↦ (
      λ h.
          let (a, r) = (then_iff _ _).0 h in
          let (b, c) = (then_iff _ _).0 r in
          let u = (equal_text_iff k m.order_id).0 (rw e at ((assert_iff _ _).0 a)) in
          let x = rw (u, any-includes ids k) at ((assert_iff _ _).0 b) in
          (k, e, u, x, (assert_iff _ _).0 c),
      λ (id, f, u, i, p). (then_iff _ _).1 (
        (assert_iff _ _).1 (rw f ((equal_text_iff id m.order_id).1 u)),
        (then_iff _ _).1 ((assert_iff _ _).1 (rw (u, any-includes ids id) i), (assert_iff _ _).1 p),
      ),
    )
  ]

  check_messages_iff :
      (ids : List String) (n : ℕ) (ms : List Seen)
      → (check_messages ids n ms ≡ ok tt) ↔ All (IsOfOrder ids n) ms
  unfolding check_messages
  check_messages_iff ids n [] = (λ h. tt, λ h. refl)
  check_messages_iff ids n (m ∷ ms) =
      let (to, from) = check_messages_iff ids n ms in
      let (one, back) = check_message_iff ids n m in
      (
        λ h. let (a, b) = (then_iff _ _).0 h in (one a, to b),
        λ (a, b). (then_iff _ _).1 (back a, from b),
      )

  -- With at least as many orders as partitions, the load is on more than one of them.
  abbrev pub IsShared : ℕ → ℕ → List Seen → Type 0
  IsShared batch partitions ms =
      (leb partitions batch ≡ false) ⊎ Spreads (map (λ m. m.partition) ms)

  check_spread_iff :
      (batch n : ℕ) (ms : List Seen) → (check_spread batch n ms ≡ ok tt) ↔ IsShared batch n ms
  unfolding check_spread
  check_spread_iff batch n ms =
      let (to, from) = partition_spread-Spreads_iff (map (λ m. m.partition) ms) in
      elim (Bool-cases (leb n batch)) [
        | inl e ↦ (
          λ h. inr (to ((assert_iff _ _).0 (rw e at h))),
          λ h. elim h [
            | inl f ↦ absurd (ground arith)
            | inr s ↦ rw e ((assert_iff _ _).1 (from s))
          ],
        )
        | inr e ↦ (λ h. inl e, λ h. rw e refl)
      ]

  check_keys_iff :
      (ms : List Seen)
      → (check_keys [] ms ≡ ok tt) ↔ ((place : Option String → ℕ) × IsPlacedBy place ms)
  check_keys_iff ms = (
    λ h. let (place, a, f) = check_keys-places [] ms h in (place, a),
    λ (place, a). check_keys-placed place [] ms tt a,
  )

  size_iff : (a b : ℕ) → (eqb a b ≡ true) ↔ (a ≡ b)
  size_iff a b = (λ h. ground arith, λ h. ground arith)

  -- The check of verify-kafka-partitions.mjs finds no fault with the records that were gathered exactly
  -- if they are as many as the batch has orders; each is keyed by one of the orders that were created,
  -- and comes from a partition of the topic; with at least as many orders as partitions, no
  -- partition has them all; and the partition of a record is a function of its key.
  pub check_flow_iff :
      (batch partitions : ℕ) (order_ids : List String) (ms : List Seen)
      → (check_flow batch partitions order_ids ms ≡ ok tt) ↔ (
          (length ms ≡ batch)
          × All (IsOfOrder order_ids partitions) ms
          × IsShared batch partitions ms
          × ((place : Option String → ℕ) × IsPlacedBy place ms))
  unfolding check_flow
  check_flow_iff batch n ids ms = (
    λ h.
        let (a, r) = (then_iff _ _).0 h in
        let (b, s) = (then_iff _ _).0 r in
        let (c, d) = (then_iff _ _).0 s in
        (
          (size_iff _ _).0 ((assert_iff _ _).0 a),
          (check_messages_iff ids n ms).0 b,
          (check_spread_iff batch n ms).0 c,
          (check_keys_iff ms).0 d,
        ),
    λ (a, b, c, d). (then_iff _ _).1 (
      (assert_iff _ _).1 ((size_iff _ _).1 a),
      (then_iff _ _).1 (
        (check_messages_iff ids n ms).1 b,
        (then_iff _ _).1 ((check_spread_iff batch n ms).1 c, (check_keys_iff ms).1 d),
      ),
    ),
  )
