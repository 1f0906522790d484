-- ===== src/Payment/Rules.antt =====
-- services/payment-service/src/payment/payment-rules.ts
pub mod Laws
use eventflow_kafka_microser.Js.Value.{Value, Num}
use eventflow_kafka_microser.Prelude.{
  String, concat, List, Bool, join, if◌then◌else◌, length, map, ◌∷◌, collect, [], ◌++◌, eqb, none,
  some,
}
use eventflow_kafka_microser.Js.Host.{Host, int}
use eventflow_kafka_microser.Payment.Order.{OrderCreatedPayload, OrderItem}

pub record PaymentBusinessRulesConfig : Type 0 where
  pub min_amount : Num
  pub max_amount : Num
  pub max_items : Num
  pub amount_tolerance : Num

pub record PaymentRuleViolation : Type 0 where
  pub rule : String
  pub message : String

module _ ⦃H : Host⦄ where
  -- `Number(process.env[name] ?? fallback)`
  abbrev pub env_number : String → Num → Num
  env_number name fallback = elim (H.env name) [ none ↦ fallback | some raw ↦ H.parse raw ]

  unfoldable pub resolve_payment_business_rules : PaymentBusinessRulesConfig
  resolve_payment_business_rules = record {
    min_amount = env_number "PAYMENT_MIN_AMOUNT" (H.lit 1 2);
    max_amount = env_number "PAYMENT_MAX_AMOUNT" (int 10000);
    max_items = env_number "PAYMENT_MAX_ITEMS" (int 50);
    amount_tolerance = env_number "PAYMENT_AMOUNT_TOLERANCE" (H.lit 1 2);
  }

  -- `items.reduce((sum, item) => sum + item.quantity * item.unitPrice, sum)`
  unfoldable pub sum_from : Num → List OrderItem → Num
  sum_from sum [] = sum
  sum_from sum (item ∷ items) = sum_from (H.add sum (H.mul item.quantity item.unit_price)) items

  unfoldable pub sum_line_items : List OrderItem → Num
  sum_line_items items = sum_from (int 0) items

  -- `if (broken) violations.push({ rule, message })`
  abbrev pub violation : Bool → String → List String → List PaymentRuleViolation
  violation broken rule message =
      if broken then record { rule = rule; message = concat message } ∷ [] else []

  unfoldable pub item_violations : List OrderItem → List PaymentRuleViolation
  unfolding concat
  item_violations [] = []
  item_violations (item ∷ items) =
      violation (H.le item.quantity (int 0)) "POSITIVE_QUANTITY"
        ("invalid quantity for product " ∷ item.product_id ∷ [])
      ++ violation (H.lt item.unit_price (int 0)) "NON_NEGATIVE_PRICE"
          ("invalid unitPrice for product " ∷ item.product_id ∷ [])
      ++ item_violations items

  unfoldable pub evaluate_payment_rules :
      OrderCreatedPayload → PaymentBusinessRulesConfig → List PaymentRuleViolation
  unfolding concat
  evaluate_payment_rules order config =
      let total = H.print order.total_amount in
      let count = int (length order.items) in
      let computed_total = sum_line_items order.items in
      let drift = H.abs (H.sub computed_total order.total_amount) in
      collect (
        violation (H.lt order.total_amount config.min_amount) "MIN_AMOUNT"
          ("totalAmount " ∷ total ∷ " is below minimum " ∷ H.print config.min_amount ∷ [])
        ∷ violation (H.lt config.max_amount order.total_amount) "MAX_AMOUNT"
            ("totalAmount " ∷ total ∷ " exceeds maximum " ∷ H.print config.max_amount ∷ [])
        ∷ violation (eqb (length order.items) 0) "NON_EMPTY_ITEMS"
            ("order must contain at least one item" ∷ [])
        ∷ violation (H.lt config.max_items count) "MAX_ITEMS"
            ("order has " ∷ H.print count ∷ " items; maximum is " ∷ H.print config.max_items ∷ [])
        ∷ violation (H.lt config.amount_tolerance drift) "AMOUNT_MATCHES_ITEMS"
            ("totalAmount " ∷ total ∷ " does not match items sum " ∷ H.print computed_total ∷ [])
        ∷ item_violations order.items
        ∷ [])

-- `violations.map(v => `${v.rule}: ${v.message}`).join('; ')`
unfoldable pub format_rule_violations : List PaymentRuleViolation → String
unfolding concat join
format_rule_violations violations =
    join "; " (map (λ v. concat (v.rule ∷ ": " ∷ v.message ∷ [])) violations)
