-- ===== src/Events/Validate.antt =====
-- shared/src/events/validate-envelope.ts, validate-order-created.ts and validate-payment-events.ts:
-- the validators on the consumer edge. Each collects the messages of all failed checks, in the
-- order of the source, and throws them together.
pub mod Sound
pub mod Orders
use eventflow_kafka_microser.Prelude.{
  ℕ, suc, zero, String, Bool, true, false, not, ◌&&◌, ◌||◌, Option, none, some, List, [], ◌∷◌, ◌++◌,
  concat, join, leb, eqb, includes, ◌==◌, if◌then◌else◌, collect,
}
use eventflow_kafka_microser.Js.Text.{not_blank, is_digit, is_hex, matches}
use eventflow_kafka_microser.Js.Value.{
  Value, undefined, num, str, arr, Items, nil, get, Num, items_list,
}
use eventflow_kafka_microser.Js.Errors.{Thrown, validation, Result, ok, err, ◌>>◌}
use eventflow_kafka_microser.Js.Host.{Host, int, is_object}
use eventflow_kafka_microser.Events.Types.{EventType, event_name}
use eventflow_kafka_microser.Events.Envelope.{event_schema_version, is_text}

-- `if (failed) errors.push(message)`
abbrev pub check : Bool → String → List String
check failed message = if failed then message ∷ [] else []

-- `if (errors.length > 0) throw new EventValidationError(message, errors)`
abbrev pub throw_all : String → List String → Result (Unit {0})
throw_all message [] = ok tt
throw_all message (e ∷ es) = err (validation message (e ∷ es))

-- `p{n}` before the rest of a pattern
abbrev times : ℕ → (ℕ → Bool) → List (ℕ → Bool) → List (ℕ → Bool)
times zero p r = r
times (suc n) p r = p ∷ times n p r

abbrev is_char : ℕ → ℕ → Bool
is_char k c = eqb c k

-- `[1-5]` and `[89ab]`, the latter under the flag `i`
abbrev is_version : ℕ → Bool
is_version c = leb b'1' c && leb c b'5'

abbrev is_variant : ℕ → Bool
is_variant c = eqb c b'8' || eqb c b'9' || eqb c b'a' || eqb c b'b' || eqb c b'A' || eqb c b'B'

-- `UUID_REGEX`
abbrev pub uuid_pattern : List (ℕ → Bool)
uuid_pattern = times 8 is_hex (
    is_char b'-'
    ∷ times 4 is_hex (
        is_char b'-'
        ∷ is_version
        ∷ times 3 is_hex
            (is_char b'-' ∷ is_variant ∷ times 3 is_hex (is_char b'-' ∷ times 12 is_hex []))))

unfoldable pub is_uuid_text : String → Bool
is_uuid_text s = matches uuid_pattern s

-- A date and a time up to the seconds, before the rest of a pattern.
abbrev pub iso_seconds : List (ℕ → Bool) → List (ℕ → Bool)
iso_seconds r = times 4 is_digit (
    is_char b'-'
    ∷ times 2 is_digit (
        is_char b'-'
        ∷ times 2 is_digit (
            is_char b'T'
            ∷ times 2 is_digit
                (is_char b':' ∷ times 2 is_digit (is_char b':' ∷ times 2 is_digit r)))))

-- `(\.\d{n})?Z`, with n digits and the point, or without both where n is zero
abbrev pub iso_end : ℕ → List (ℕ → Bool)
iso_end zero = is_char b'Z' ∷ []
iso_end (suc n) = is_char b'.' ∷ times (suc n) is_digit (is_char b'Z' ∷ [])

-- `ISO_TIMESTAMP_REGEX`: the optional group has one to three digits
unfoldable pub is_iso_text : String → Bool
is_iso_text s =
    matches (iso_seconds (iso_end 0)) s
    || matches (iso_seconds (iso_end 1)) s
    || matches (iso_seconds (iso_end 2)) s
    || matches (iso_seconds (iso_end 3)) s

unfoldable pub is_non_empty_string : Value → Bool
unfolding not_blank
is_non_empty_string (str s) = not_blank s
is_non_empty_string _ = false

-- `typeof value === 'string' && test(value)`
abbrev pub is_string_with : (String → Bool) → Value → Bool
is_string_with p (str s) = p s
is_string_with p _ = false

unfoldable pub is_uuid : Value → Bool
unfolding is_non_empty_string is_uuid_text
is_uuid v = is_non_empty_string v && is_string_with is_uuid_text v

unfoldable pub is_iso_timestamp : Value → Bool
unfolding is_non_empty_string is_iso_text
is_iso_timestamp v = is_non_empty_string v && is_string_with is_iso_text v

unfoldable pub event_type_errors : Value → Option EventType → List String
unfolding concat
event_type_errors v none = check (not (is_non_empty_string v)) "eventType is required"
event_type_errors v (some t) =
    if not (is_non_empty_string v)
    then "eventType is required" ∷ []
    else check (not (is_text (event_name t) v)) (concat ("eventType must be " ∷ event_name t ∷ []))

-- `causationId !== undefined && !isUuid(causationId)`
unfoldable pub bad_causation : Value → Bool
bad_causation undefined = false
bad_causation v = not (is_uuid v)

unfoldable pub envelope_checks : Value → Option EventType → List (List String)
unfolding concat
envelope_checks envelope expected =
    check (not (is_uuid (get "eventId" envelope))) "eventId must be a UUID"
    ∷ event_type_errors (get "eventType" envelope) expected
    ∷ check (not (is_text event_schema_version (get "version" envelope)))
        (concat ("version must be " ∷ event_schema_version ∷ []))
    ∷ check (not (is_iso_timestamp (get "timestamp" envelope))) "timestamp must be ISO-8601 UTC"
    ∷ check (not (is_non_empty_string (get "correlationId" envelope))) "correlationId is required"
    ∷ check (not (is_non_empty_string (get "source" envelope))) "source is required"
    ∷ check (bad_causation (get "causationId" envelope)) "causationId must be a UUID when present"
    ∷ check (not (is_object (get "payload" envelope))) "payload must be an object"
    ∷ []

unfoldable pub envelope_errors : Value → Option EventType → List String
envelope_errors envelope expected = collect (envelope_checks envelope expected)

unfoldable pub validate_event_envelope : Value → Option EventType → Result (Unit {0})
validate_event_envelope value expected =
    if not (is_object value)
    then err (validation "Envelope must be an object" [])
    else throw_all "Invalid event envelope" (envelope_errors value expected)

-- The two validators of payment.events payloads: `required` lists the fields in their order.
unfoldable pub required_errors : Value → List String → List String
unfolding concat
required_errors payload [] = []
required_errors payload (k ∷ ks) =
    check (not (is_non_empty_string (get k payload)))
      (concat ("payload." ∷ k ∷ " is required" ∷ []))
    ++ required_errors payload ks

abbrev pub payment_processed_fields : List String
payment_processed_fields = "paymentId" ∷ "orderId" ∷ "transactionId" ∷ "processedAt" ∷ []

abbrev pub payment_failed_fields : List String
payment_failed_fields = "paymentId" ∷ "orderId" ∷ "reason" ∷ "failedAt" ∷ []

unfoldable pub validate_payment_processed_payload : Value → Result (Unit {0})
validate_payment_processed_payload payload =
    if not (is_object payload)
    then err (validation "payment.processed payload must be an object" [])
    else throw_all "Invalid payment.processed payload"
        (required_errors payload payment_processed_fields)

unfoldable pub validate_payment_failed_payload : Value → Result (Unit {0})
validate_payment_failed_payload payload =
    if not (is_object payload)
    then err (validation "payment.failed payload must be an object" [])
    else throw_all "Invalid payment.failed payload" (required_errors payload payment_failed_fields)

-- `CURRENCIES`
abbrev pub currencies : List String
currencies = "BRL" ∷ "USD" ∷ "EUR" ∷ []

module _ ⦃H : Host⦄ where
  -- `typeof value === 'number' && Number.isFinite(value) && value >= 0`
  unfoldable pub is_positive_number : Value → Bool
  is_positive_number (num x) = H.is_finite x && H.le (int 0) x
  is_positive_number _ = false

  -- `value <= 0` for a number
  abbrev pub not_above_zero : Value → Bool
  not_above_zero (num x) = H.le x (int 0)
  not_above_zero _ = true

  unfoldable pub order_item_checks : Value → String → List (List String)
  unfolding concat
  order_item_checks item at =
      check (not (is_non_empty_string (get "productId" item)))
        (concat (at ∷ ".productId is required" ∷ []))
      ∷ check
          (not (is_positive_number (get "quantity" item)) || not_above_zero (get "quantity" item))
          (concat (at ∷ ".quantity must be a positive number" ∷ []))
      ∷ check (not (is_positive_number (get "unitPrice" item)))
          (concat (at ∷ ".unitPrice must be a non-negative number" ∷ []))
      ∷ []

  unfoldable pub validate_order_item : Value → ℕ → List String
  unfolding concat
  validate_order_item item index =
      let at = concat ("items[" ∷ H.print (int index) ∷ "]" ∷ []) in
      if not (is_object item)
      then concat (at ∷ " must be an object" ∷ []) ∷ []
      else collect (order_item_checks item at)

  unfoldable pub order_items_errors : Items → ℕ → List String
  order_items_errors nil index = []
  order_items_errors (Items.cons item items) index =
      validate_order_item item index ++ order_items_errors items (suc index)

  unfoldable pub items_errors : Value → List String
  items_errors (arr nil) = "payload.items must be a non-empty array" ∷ []
  items_errors (arr items) = order_items_errors items 0
  items_errors _ = "payload.items must be a non-empty array" ∷ []

  unfoldable pub order_created_checks : Value → List (List String)
  unfolding concat join
  order_created_checks payload =
      check (not (is_non_empty_string (get "orderId" payload))) "payload.orderId is required"
      ∷ check (not (is_non_empty_string (get "customerId" payload)))
          "payload.customerId is required"
      ∷ items_errors (get "items" payload)
      ∷ check (not (is_positive_number (get "totalAmount" payload)))
          "payload.totalAmount must be a non-negative number"
      ∷ check (not (is_string_with (includes currencies) (get "currency" payload)))
          (concat ("payload.currency must be one of: " ∷ join ", " currencies ∷ []))
      ∷ []

  unfoldable pub order_created_errors : Value → List String
  order_created_errors payload = collect (order_created_checks payload)

  unfoldable pub validate_order_created_payload : Value → Result (Unit {0})
  validate_order_created_payload payload =
      if not (is_object payload)
      then err (validation "order.created payload must be an object" [])
      else throw_all "Invalid order.created payload" (order_created_errors payload)
