-- ===== src/Events/Payloads/Asserted.antt =====
-- The validators as TypeScript takes them, `asserts payload is ...`.
use eventflow_kafka_microser.Prelude.{◌≡◌, refl, true, Bool, List, [], ◌∷◌, All, all}
use eventflow_kafka_microser.Js.Errors.{Result, ok, err}
use eventflow_kafka_microser.Js.Host.{Host}
use eventflow_kafka_microser.Events.Payloads.{
  is_order_item, event_payload_map, has_fields, has_type, conforms,
}
use eventflow_kafka_microser.Js.Value.{Value, items_list}
use eventflow_kafka_microser.Events.Validate.Orders.{
  IsItem, IsOrderCreated, validate_order_created_payload_iff,
}
use eventflow_kafka_microser.Events.Validate.{
  validate_order_created_payload, payment_processed_fields, payment_failed_fields,
  validate_payment_processed_payload, validate_payment_failed_payload,
}
use eventflow_kafka_microser.Events.Types.{order_created, payment_processed, payment_failed}
use eventflow_kafka_microser.Events.Validate.Sound.{
  HasTexts, validate_payment_processed_payload_iff, validate_payment_failed_payload_iff,
}

-- A value that the validator lets through has what it asserts.
abbrev pub Asserts : Result (Unit {0}) → Bool → Type 0
Asserts (ok a) b = b ≡ true
Asserts (err e) b = Unit

asserted : (r : Result (Unit {0})) (b : Bool) → (r ≡ ok tt → b ≡ true) → Asserts r b
asserted (ok a) b h = h refl
asserted (err e) b h = tt

module _ ⦃H : Host⦄ where
  all-IsItem : (vs : List Value) → All IsItem vs → all is_order_item vs ≡ true
  unfolding is_order_item
  all-IsItem [] h = refl
  all-IsItem (v ∷ vs) (i, h) =
      let (s, e, _) = i.product_id in
      let (x, q, _, _, _) = i.quantity in
      let (y, u, _, _) = i.unit_price in rw (i.object, e, q, u) (all-IsItem vs h)

  IsOrderCreated-conforms :
      (v : Value) → IsOrderCreated v → conforms (event_payload_map order_created) v ≡ true
  unfolding event_payload_map has_fields has_type
  IsOrderCreated-conforms v h =
      let (id, i, _) = h.order_id in
      let (customer, c, _) = h.customer_id in
      let (xs, l, _, items) = h.items in
      let (total, t, _, _) = h.total_amount in
      let (currency, u, one) = h.currency in
      rw (h.object, i, c, l, all-IsItem (items_list xs) items, t, u, one) refl

  processed-conforms :
      (v : Value)
      → HasTexts payment_processed_fields v
      → conforms (event_payload_map payment_processed) v ≡ true
  unfolding event_payload_map has_fields has_type
  processed-conforms v (object, ((a, e, _), ((b, f, _), ((c, g, _), ((d, i, _), _))))) =
      rw (object, e, f, g, i) refl

  failed-conforms :
      (v : Value)
      → HasTexts payment_failed_fields v
      → conforms (event_payload_map payment_failed) v ≡ true
  unfolding event_payload_map has_fields has_type
  failed-conforms v (object, ((a, e, _), ((b, f, _), ((c, g, _), ((d, i, _), _))))) =
      rw (object, e, f, g, i) refl

  -- The three validators of payloads are sound for the types that they assert: a value that one of
  -- them lets through is an object of the interface that `EventPayloadMap` has for its event, with
  -- every field of the declared type and the currency one of the declared literals.
  pub validators-Asserts :
      (v : Value)
      → Asserts (validate_order_created_payload v) (conforms (event_payload_map order_created) v)
        × Asserts
            (validate_payment_processed_payload v)
            (conforms (event_payload_map payment_processed) v)
        × Asserts
            (validate_payment_failed_payload v)
            (conforms (event_payload_map payment_failed) v)
  validators-Asserts v = (
    asserted _ _ (λ h. IsOrderCreated-conforms v ((validate_order_created_payload_iff v).0 h)),
    asserted _ _ (λ h. processed-conforms v ((validate_payment_processed_payload_iff v).0 h)),
    asserted _ _ (λ h. failed-conforms v ((validate_payment_failed_payload_iff v).0 h)),
  )
