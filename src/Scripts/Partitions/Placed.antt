-- ===== src/Scripts/Partitions/Placed.antt =====
-- What the check of the partitions finds out.
use eventflow_kafka_microser.Prelude.{
  ◌≡◌, refl, ℕ, String, List, [], ◌∷◌, All, true, Option, none, some, eqb, arith, ◌↔◌, sym, eq_iff,
  ◌∙◌, Bool-cases, inl, ap, inr, Option-cases,
}
use eventflow_kafka_microser.Scripts.Partitions.{same_key, Seen, find_place, check_keys}
use eventflow_kafka_microser.Js.Host.{Host}
use eventflow_kafka_microser.Js.Io.{◌>>◌, ◌>>=◌}
use eventflow_kafka_microser.Scripts.{assert}
use eventflow_kafka_microser.Js.Errors.{ok}

same_key_iff : (a b : Option String) → (same_key a b ≡ true) ↔ (a ≡ b)
same_key_iff none none = (λ h. refl, λ h. refl)
same_key_iff (some a) (some b) = ground (arith, eq_iff a b)
same_key_iff none (some b) = ground arith
same_key_iff (some a) none = ground arith

module _ ⦃H : Host⦄ where
  -- The partitions are those of a function of the keys.
  abbrev pub IsPlacedBy : (Option String → ℕ) → List Seen → Type 0
  IsPlacedBy place ms = All (λ m. m.partition ≡ place m.key) ms

  -- So are those that are known.
  abbrev Knows : (Option String → ℕ) → List (Option String × ℕ) → Type 0
  Knows place known = All (λ (k, p). p ≡ place k) known

  find_place-Knows :
      (place : Option String → ℕ) (known : List (Option String × ℕ)) (k : Option String) (p : ℕ)
      → Knows place known
      → find_place k known ≡ some p
      → p ≡ place k
  unfolding find_place
  find_place-Knows place [] k p h e = ground arith
  find_place-Knows place ((j, q) ∷ known) k p (f, h) e = elim (Bool-cases (same_key j k)) [
    | inl i ↦
        let s : j ≡ k = (same_key_iff j k).0 i in
        let t : some q ≡ some p = rw i at e in
        let u : q ≡ p = ground arith in sym u ∙ f ∙ ap place s
    | inr i ↦ find_place-Knows place known k p h (rw i at e)
  ]

  pub check_keys-placed :
      (place : Option String → ℕ) (known : List (Option String × ℕ)) (ms : List Seen)
      → Knows place known
      → IsPlacedBy place ms
      → check_keys known ms ≡ ok tt
  unfolding check_keys ◌>>◌ ◌>>=◌ assert
  check_keys-placed place known [] h k = refl
  check_keys-placed place known (m ∷ ms) h (e, k) = elim (Option-cases (find_place m.key known)) [
    | inl i ↦
        rw (check_keys, i) (check_keys-placed place ((m.key, m.partition) ∷ known) ms (e, h) k)
    | inr (p, i) ↦
        let s : eqb p m.partition ≡ true =
          (let t = find_place-Knows place known m.key p h i ∙ sym e in ground arith) in
        rw (check_keys, i, s) (check_keys-placed place known ms h k)
  ]

  -- Every place that is found is that of the function.
  abbrev Finds : (Option String → ℕ) → List (Option String × ℕ) → Type 0
  Finds place known = (k : Option String) (p : ℕ) → find_place k known ≡ some p → p ≡ place k

  place_of : Option ℕ → ℕ
  place_of none = 0
  place_of (some p) = p

  find_place-new :
      (m : Option String) (p q : ℕ) (known : List (Option String × ℕ)) (k : Option String)
      → find_place m known ≡ none
      → find_place k known ≡ some q
      → find_place k ((m, p) ∷ known) ≡ some q
  unfolding find_place
  find_place-new m p q known k n e = elim (Bool-cases (same_key m k)) [
    | inl i ↦
        let s : m ≡ k = (same_key_iff m k).0 i in
        let t : find_place k known ≡ none = rw (← s) n in absurd (ground arith)
    | inr i ↦ rw i e
  ]

  find_place-here :
      (k : Option String) (p : ℕ) (known : List (Option String × ℕ))
      → find_place k ((k, p) ∷ known) ≡ some p
  unfolding find_place
  find_place-here k p known = rw ((same_key_iff k k).1 refl) refl

  pub check_keys-places :
      (known : List (Option String × ℕ)) (ms : List Seen)
      → check_keys known ms ≡ ok tt
      → (place : Option String → ℕ) × IsPlacedBy place ms × Finds place known
  unfolding check_keys ◌>>◌ ◌>>=◌ assert place_of
  check_keys-places known [] h =
      (λ k. place_of (find_place k known), tt, λ k p e. ap place_of (sym e))
  check_keys-places known (m ∷ ms) h = elim (Option-cases (find_place m.key known)) [
    | inl i ↦
        let rest : check_keys ((m.key, m.partition) ∷ known) ms ≡ ok tt = rw (check_keys, i) at h in
        let (place, a, f) = check_keys-places ((m.key, m.partition) ∷ known) ms rest in
        (
          place,
          (f m.key m.partition (find_place-here m.key m.partition known), a),
          λ k p e. f k p (find_place-new m.key m.partition p known k i e),
        )
    | inr (p, i) ↦ elim (Bool-cases (eqb p m.partition)) [
      | inl s ↦
          let rest : check_keys known ms ≡ ok tt = rw (check_keys, i, s) at h in
          let (place, a, f) = check_keys-places known ms rest in
          let t : p ≡ m.partition = ground arith in (place, (sym t ∙ f m.key p i, a), f)
      | inr s ↦ absurd (let bad = rw (check_keys, i, s) at h in ground arith)
    ]
  ]
