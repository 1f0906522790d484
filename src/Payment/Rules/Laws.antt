-- ===== src/Payment/Rules/Laws.antt =====
-- What the rules of payment permit.
use eventflow_kafka_microser.Prelude.{
  ◌≡◌, refl, ◌↔◌, ◌≢◌, List, [], ◌∷◌, Bool, true, false, All, length, eqb, arith, collect-nil_iff,
  collect, if◌then◌else◌, ◌++◌,
}
use eventflow_kafka_microser.Js.Host.{Host, int}
use eventflow_kafka_microser.Payment.Order.{OrderCreatedPayload, OrderItem}
use eventflow_kafka_microser.Payment.Rules.{
  PaymentBusinessRulesConfig, item_violations, evaluate_payment_rules, sum_line_items,
}

module _ {A : Type 0} where
  if-nil_iff : (b : Bool) (x : A) → ((if b then x ∷ [] else []) ≡ []) ↔ (b ≡ false)
  if-nil_iff true x = ground arith
  if-nil_iff false x = ground arith

  three-nil_iff : (x y z : List A) → (x ++ y ++ z ≡ []) ↔ ((x ≡ []) × (y ≡ []) × (z ≡ []))
  three-nil_iff [] [] z = ground arith
  three-nil_iff [] (y ∷ ys) z = ground arith
  three-nil_iff (x ∷ xs) y z = ground arith

  six-nil_iff :
      (a b c d e f : List A)
      → (collect (a ∷ b ∷ c ∷ d ∷ e ∷ f ∷ []) ≡ [])
        ↔ ((a ≡ []) × (b ≡ []) × (c ≡ []) × (d ≡ []) × (e ≡ []) × (f ≡ []))
  six-nil_iff a b c d e f =
      let (to, from) = collect-nil_iff (a ∷ b ∷ c ∷ d ∷ e ∷ f ∷ []) in
      (
        λ h. let (p, (q, (r, (s, (t, (u, _)))))) = to h in (p, q, r, s, t, u),
        λ (p, q, r, s, t, u). from (p, (q, (r, (s, (t, (u, tt)))))),
      )

module _ ⦃H : Host⦄ where
  -- The quantity is not at most 0, and the price is not below 0.
  abbrev pub IsPermittedItem : OrderItem → Type 0
  IsPermittedItem item =
      (H.le item.quantity (int 0) ≡ false) × (H.lt item.unit_price (int 0) ≡ false)

  -- The amount is not below the minimum and not above the maximum, there is an item and there are not
  -- too many, each item is permitted, and the amount does not differ by more than the tolerance from
  -- the sum of the items.
  abbrev pub IsPermitted : OrderCreatedPayload → PaymentBusinessRulesConfig → Type 0
  IsPermitted order config =
      (H.lt order.total_amount config.min_amount ≡ false)
      × (H.lt config.max_amount order.total_amount ≡ false)
      × (order.items ≢ [])
      × (H.lt config.max_items (int (length order.items)) ≡ false)
      × (H.lt config.amount_tolerance
            (H.abs (H.sub (sum_line_items order.items) order.total_amount))
          ≡ false)
      × All IsPermittedItem order.items

  not_empty_iff : (items : List OrderItem) → (eqb (length items) 0 ≡ false) ↔ (items ≢ [])
  not_empty_iff [] = ground arith
  not_empty_iff (x ∷ xs) = ground arith

  item_violations-nil_iff :
      (items : List OrderItem) → (item_violations items ≡ []) ↔ All IsPermittedItem items
  unfolding item_violations
  item_violations-nil_iff [] = (λ h. tt, λ h. refl)
  item_violations-nil_iff (item ∷ items) = (
    λ h.
        let (x, y, z) = (three-nil_iff _ _ _).0 h in
        (((if-nil_iff _ _).0 x, (if-nil_iff _ _).0 y), (item_violations-nil_iff items).0 z),
    λ h.
        (three-nil_iff _ _ _).1 (
          (if-nil_iff _ _).1 h.0.0,
          (if-nil_iff _ _).1 h.0.1,
          (item_violations-nil_iff items).1 h.1,
        ),
  )

  -- The rules find no violation exactly in an order that they permit: none of them is missed, and none
  -- of them refuses more than it says.
  pub evaluate_payment_rules-nil_iff :
      (order : OrderCreatedPayload) (config : PaymentBusinessRulesConfig)
      → (evaluate_payment_rules order config ≡ []) ↔ IsPermitted order config
  unfolding evaluate_payment_rules
  evaluate_payment_rules-nil_iff order config = (
    λ h.
        let (v, w, x, y, z, i) = (six-nil_iff _ _ _ _ _ _).0 h in
        (
          (if-nil_iff _ _).0 v,
          (if-nil_iff _ _).0 w,
          (not_empty_iff order.items).0 ((if-nil_iff _ _).0 x),
          (if-nil_iff _ _).0 y,
          (if-nil_iff _ _).0 z,
          (item_violations-nil_iff order.items).0 i,
        ),
    λ h. (six-nil_iff _ _ _ _ _ _).1 (
      (if-nil_iff _ _).1 h.0,
      (if-nil_iff _ _).1 h.1,
      (if-nil_iff _ _).1 ((not_empty_iff order.items).1 h.2),
      (if-nil_iff _ _).1 h.3,
      (if-nil_iff _ _).1 h.4,
      (item_violations-nil_iff order.items).1 h.5,
    ),
  )
