-- ===== src/Scripts/Scale/Rounds.antt =====
-- When the check of the scale finds no fault.
use eventflow_kafka_microser.Prelude.{
  ◌≡◌, refl, ℕ, zero, suc, String, true, false, List, [], ◌∷◌, ◌+◌, eqb, leb, ltb, length, arith,
  ◌↔◌, includes, inl, inr, ◌∙◌, eq_iff, Bool-cases, ◌*◌, subst,
}
use eventflow_kafka_microser.Js.Errors.{ok, ◌>>=◌, Result-cases}
use eventflow_kafka_microser.Scripts.Scale.{
  set_of, Admin, Group, poll, describe_group, check_group, verify_scale, client_ids, unknown,
}
use eventflow_kafka_microser.Js.Host.{Host}
use eventflow_kafka_microser.Scripts.Partitions.Found.{then_iff}
use eventflow_kafka_microser.Scripts.Flows.Passes.{assert_iff}

-- No two of the texts are equal.
abbrev pub Distinct : List String → Type 0
Distinct [] = Unit
Distinct (x ∷ xs) = (includes xs x ≡ false) × Distinct xs

includes-set_of : (xs : List String) (s : String) → includes (set_of xs) s ≡ includes xs s
unfolding set_of
includes-set_of [] s = refl
includes-set_of (x ∷ xs) s = ground (arith, includes-set_of xs s, includes-set_of xs x, eq_iff x s)

set_of-length : (xs : List String) → leb (length (set_of xs)) (length xs) ≡ true
unfolding set_of
set_of-length [] = refl
set_of-length (x ∷ xs) = ground (arith, set_of-length xs)

-- A set has as many elements as there are texts exactly if these are distinct.
set_of-Distinct_iff :
    (xs : List String) → (eqb (length (set_of xs)) (length xs) ≡ true) ↔ Distinct xs
unfolding set_of
set_of-Distinct_iff [] = (λ h. tt, λ h. refl)
set_of-Distinct_iff (x ∷ xs) =
    let (to, from) = set_of-Distinct_iff xs in
    let same = includes-set_of xs x in
    let short = set_of-length xs in
    elim (Bool-cases (includes xs x)) [
      | inl e ↦ (
        λ h. let k = rw (same ∙ e) at h in absurd (ground arith),
        λ (f, h). absurd (ground arith),
      )
      | inr e ↦ (
        λ h. let k = rw (same ∙ e) at h in (e, to (ground arith)),
        λ (f, h). let k = from h in rw (same ∙ e) (ground arith),
      )
    ]

module _ ⦃H : Host⦄ (admin : Admin) (group_id : String) (min_members : ℕ) where
  -- From a round, each until the deadline, the first group that has as many members as are wanted.
  pub data Reaches (deadline : ℕ) : ℕ → Group → Type 0 where
    found :
        (n : ℕ) (group : Group)
        → ltb (admin.clock n) deadline ≡ true
        → describe_group admin group_id min_members n ≡ ok group
        → leb min_members group.member_count ≡ true
        → Reaches deadline n group
    waits :
        (n : ℕ) (group last : Group)
        → ltb (admin.clock n) deadline ≡ true
        → describe_group admin group_id min_members n ≡ ok group
        → leb min_members group.member_count ≡ false
        → Reaches deadline (n + 1) last
        → Reaches deadline n last

  poll-Reaches :
      (fuel deadline n : ℕ) (last group : Group)
      → leb min_members last.member_count ≡ false
      → poll admin group_id min_members fuel deadline n last ≡ ok group
      → leb min_members group.member_count ≡ true
      → Reaches deadline n group
  unfolding poll ◌>>=◌
  poll-Reaches zero d n last group f h k =
      let e : last ≡ group = ground arith in absurd (let g = rw e at f in ground arith)
  poll-Reaches (suc fuel) d n last group f h k = elim (Bool-cases (ltb (admin.clock n) d)) [
    | inr i ↦
        let e : ok last ≡ ok group = rw (poll, i) at h in
        let g : last ≡ group = ground arith in absurd (let b = rw g at f in ground arith)
    | inl i ↦ elim (Result-cases (describe_group admin group_id min_members n)) [
      | inr (x, q) ↦ absurd (let b = rw (poll, i, q) at h in ground arith)
      | inl (g, q) ↦ elim (Bool-cases (leb min_members g.member_count)) [
        | inl m ↦
            let b : ok g ≡ ok group = rw (poll, i, q, m) at h in
            let s : g ≡ group = ground arith in subst (Reaches d n) s (found n g i q m)
        | inr m ↦
            let b : poll admin group_id min_members fuel d (n + 1) g ≡ ok group =
              rw (poll, i, q, m) at h in
            waits n g group i q m (poll-Reaches fuel d (n + 1) g group m b k)
      ]
    ]
  ]

  Reaches-many :
      (deadline n : ℕ) (group : Group)
      → Reaches deadline n group
      → leb min_members group.member_count ≡ true
  Reaches-many d n group (found _ _ i q m) = m
  Reaches-many d n group (waits _ g _ i q m r) = Reaches-many d (n + 1) group r

  module _ (advances : (n : ℕ) → leb (admin.clock n + 2000) (admin.clock (n + 1)) ≡ true) where
    Reaches-poll :
        (fuel deadline n : ℕ) (last group : Group)
        → leb deadline (admin.clock n + 2000 * fuel) ≡ true
        → Reaches deadline n group
        → poll admin group_id min_members fuel deadline n last ≡ ok group
    unfolding poll ◌>>=◌
    Reaches-poll zero d n last group b (found _ _ i q m) = absurd (ground arith)
    Reaches-poll zero d n last group b (waits _ g _ i q m r) = absurd (ground arith)
    Reaches-poll (suc fuel) d n last group b (found _ _ i q m) = rw (poll, i, q, m) refl
    Reaches-poll (suc fuel) d n last group b (waits _ g _ i q m r) =
        let step = advances n in
        rw (poll, i, q, m) (Reaches-poll fuel d (n + 1) g group (ground arith) r)

    check_group_iff :
        (last : Group)
        → (check_group admin group_id min_members last ≡ ok tt)
          ↔ ((leb min_members last.member_count ≡ true) × Distinct (client_ids last.members))
    unfolding check_group
    check_group_iff last = (
      λ h.
          let (a, b) = (then_iff _ _).0 h in
          (
            (assert_iff _ _).0 a,
            (set_of-Distinct_iff (client_ids last.members)).0 ((assert_iff _ _).0 b),
          ),
      λ (a, b). (then_iff _ _).1 (
        (assert_iff _ _).1 a,
        (assert_iff _ _).1 ((set_of-Distinct_iff (client_ids last.members)).1 b),
      ),
    )

    -- With at least one member wanted, and a clock that goes on by two seconds at least from round to
    -- round and has not gone back at the first, eight rounds are enough: with that many or more, the
    -- check finds no fault exactly if some round that begins within 15 seconds of the start, behind rounds that found too
    -- few members, finds as many as are wanted, and those that have a `clientId` have distinct ones.
    pub verify_scale_iff :
        (fuel started : ℕ)
        → leb 8 fuel ≡ true
        → leb started (admin.clock 0) ≡ true
        → ltb 0 min_members ≡ true
        → (verify_scale admin group_id min_members fuel started ≡ ok tt) ↔ (
            (group : Group) × Reaches (started + 15000) 0 group
            × Distinct (client_ids group.members))
    unfolding verify_scale ◌>>=◌
    verify_scale_iff fuel started m b k =
        let d = started + 15000 in
        (
          λ h. elim (Result-cases (poll admin group_id min_members fuel d 0 unknown)) [
            | inl (g, e) ↦
                let (many, apart) = (check_group_iff g).0 (rw e at h) in
                (g, poll-Reaches fuel d 0 unknown g (ground arith) e many, apart)
            | inr (x, e) ↦ absurd (let f = rw e at h in ground arith)
          ],
          λ (g, r, apart).
              rw (Reaches-poll fuel d 0 unknown g (ground arith) r)
                ((check_group_iff g).1 (Reaches-many d 0 g r, apart)),
        )
