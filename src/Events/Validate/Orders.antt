-- ===== src/Events/Validate/Orders.antt =====
-- What the validator of `order.created` payloads accepts, described field by field.
use eventflow_kafka_microser.Prelude.{
  ◌≡◌, String, ◌↔◌, arith, ◌≢◌, All, Bool-cases, refl, collect-nil_iff, inl, inr, ◌||◌, true, Bool,
  ℕ, [], false, includes, collect, not, suc, append-nil_iff,
}
use eventflow_kafka_microser.Js.Host.{Host, is_object, int}
use eventflow_kafka_microser.Js.Value.{Value, Num, items_list, num, str, get, Items, arr, nil}
use eventflow_kafka_microser.Events.Validate.{
  is_positive_number, validate_order_item, order_items_errors, order_item_checks,
  validate_order_created_payload, is_string_with, currencies, check, items_errors,
  order_created_errors, order_created_checks, not_above_zero,
}
use eventflow_kafka_microser.Events.Validate.Sound.{IsText, guard_iff, non_empty_iff, passes}
use eventflow_kafka_microser.Js.Errors.{ok}
use eventflow_kafka_microser.Js.Text.{not_blank}

-- A finite number that is at least 0.
abbrev pub IsAmount : ⦃H : Host⦄ → Value → Type 0
IsAmount ⦃H⦄ v = (x : Num) × (v ≡ num x) × (H.is_finite x ≡ true) × (H.le (int 0) x ≡ true)

-- A finite number above 0.
abbrev pub IsQuantity : ⦃H : Host⦄ → Value → Type 0
IsQuantity ⦃H⦄ v =
    (x : Num) × (v ≡ num x)
    × (H.is_finite x ≡ true)
    × (H.le (int 0) x ≡ true)
    × (H.le x (int 0) ≡ false)

-- One line of the order: its quantity is above 0.
pub record IsItem ⦃H : Host⦄ (v : Value) : Type 0 where
  pub object : is_object v ≡ true
  pub product_id : IsText not_blank (get "productId" v)
  pub quantity : IsQuantity (get "quantity" v)
  pub unit_price : IsAmount (get "unitPrice" v)

pub record IsOrderCreated ⦃H : Host⦄ (v : Value) : Type 0 where
  pub object : is_object v ≡ true
  pub order_id : IsText not_blank (get "orderId" v)
  pub customer_id : IsText not_blank (get "customerId" v)
  pub items : (xs : Items) × (get "items" v ≡ arr xs) × (xs ≢ nil) × All IsItem (items_list xs)
  pub total_amount : IsAmount (get "totalAmount" v)
  pub currency : IsText (includes currencies) (get "currency" v)

module _ ⦃H : Host⦄ where
  IsAmount-iff : (v : Value) → (is_positive_number v ≡ true) ↔ IsAmount v
  unfolding is_positive_number
  IsAmount-iff (num x) = (λ h. (x, refl, ground arith, ground arith), λ (y, e, f, g). ground arith)
  IsAmount-iff v = ground arith

  IsText-in_iff : (p : String → Bool) (v : Value) → (is_string_with p v ≡ true) ↔ IsText p v
  IsText-in_iff p (str s) = (λ h. (s, refl, h), λ (t, e, h). ground arith)
  IsText-in_iff p v = ground arith

  IsQuantity-iff :
      (v : Value) (m : String)
      → (check (not (is_positive_number v) || not_above_zero v) m ≡ []) ↔ IsQuantity v
  unfolding is_positive_number
  IsQuantity-iff (num x) m =
      (λ h. (x, refl, ground arith, ground arith, ground arith), λ (y, e, f, g, l). ground arith)
  IsQuantity-iff v m = ground arith

  order_item_checks_iff :
      (v : Value) (at : String)
      → is_object v ≡ true
      → (collect (order_item_checks v at) ≡ []) ↔ IsItem v
  unfolding order_item_checks
  order_item_checks_iff v at object =
      let (to, from) = collect-nil_iff (order_item_checks v at) in
      (
        λ h.
            let (a, (b, (c, _))) = to h in
            record {
              object = object;
              product_id = (non_empty_iff _).0 ((passes _ _).0 a);
              quantity = (IsQuantity-iff _ _).0 b;
              unit_price = (IsAmount-iff _).0 ((passes _ _).0 c);
            },
        λ w. from (
          (passes _ _).1 ((non_empty_iff _).1 w.product_id),
          (
            (IsQuantity-iff _ _).1 w.quantity,
            ((passes _ _).1 ((IsAmount-iff _).1 w.unit_price), tt),
          ),
        ),
      )

  validate_order_item_iff : (v : Value) (n : ℕ) → (validate_order_item v n ≡ []) ↔ IsItem v
  unfolding validate_order_item
  validate_order_item_iff v n = elim (Bool-cases (is_object v)) [
    | inl object ↦ rw object (order_item_checks_iff v _ object)
    | inr other ↦ rw other (λ h. cc, λ w. cc (w.object))
  ]

  order_items_iff :
      (xs : Items) (n : ℕ) → (order_items_errors xs n ≡ []) ↔ All IsItem (items_list xs)
  unfolding order_items_errors items_list
  order_items_iff nil n = (λ h. tt, λ h. refl)
  order_items_iff (Items.cons x xs) n =
      let (to, from) = order_items_iff xs (suc n) in
      let (split, join) = append-nil_iff _ (order_items_errors xs (suc n)) in
      (
        λ h. ((validate_order_item_iff x n).0 (split h).0, to (split h).1),
        λ w. join ((validate_order_item_iff x n).1 w.0, from w.1),
      )

  items_iff :
      (v : Value)
      → (items_errors v ≡ [])
        ↔ ((xs : Items) × (v ≡ arr xs) × (xs ≢ nil) × All IsItem (items_list xs))
  unfolding items_errors
  items_iff (arr nil) = (λ h. cc, λ (xs, e, n, w). absurd (n (cc)))
  items_iff (arr (Items.cons x xs)) =
      let (to, from) = order_items_iff (Items.cons x xs) 0 in
      (
        λ h. (Items.cons x xs, refl, λ e. cc, to h),
        λ (ys, e, n, w). let same : ys ≡ Items.cons x xs = cc in from (rw same at w),
      )
  items_iff v = ground arith

  IsOrderCreated-checks_iff :
      (v : Value) → is_object v ≡ true → (order_created_errors v ≡ []) ↔ IsOrderCreated v
  unfolding order_created_errors order_created_checks
  IsOrderCreated-checks_iff v object =
      let (to, from) = collect-nil_iff (order_created_checks v) in
      (
        λ h.
            let (a, (b, (c, (d, (e, _))))) = to h in
            record {
              object = object;
              order_id = (non_empty_iff _).0 ((passes _ _).0 a);
              customer_id = (non_empty_iff _).0 ((passes _ _).0 b);
              items = (items_iff _).0 c;
              total_amount = (IsAmount-iff _).0 ((passes _ _).0 d);
              currency = (IsText-in_iff _ _).0 ((passes _ _).0 e);
            },
        λ w. from (
          (passes _ _).1 ((non_empty_iff _).1 w.order_id),
          (
            (passes _ _).1 ((non_empty_iff _).1 w.customer_id),
            (
              (items_iff _).1 w.items,
              (
                (passes _ _).1 ((IsAmount-iff _).1 w.total_amount),
                ((passes _ _).1 ((IsText-in_iff _ _).1 w.currency), tt),
              ),
            ),
          ),
        ),
      )

  -- The validator accepts exactly the payloads of an order with at least one line.
  pub validate_order_created_payload_iff :
      (v : Value) → (validate_order_created_payload v ≡ ok tt) ↔ IsOrderCreated v
  unfolding validate_order_created_payload
  validate_order_created_payload_iff v =
      let (to, from) = guard_iff (is_object v) _ _ _ in
      (
        λ h. (IsOrderCreated-checks_iff v (to h).0).0 (to h).1,
        λ w. from (w.object, (IsOrderCreated-checks_iff v w.object).1 w),
      )
