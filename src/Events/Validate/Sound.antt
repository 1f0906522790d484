-- ===== src/Events/Validate/Sound.antt =====
-- What the validators accept, described field by field.
pub mod Checks
use eventflow_kafka_microser.Prelude.{
  if◌then◌else◌, ℕ, suc, String, ◌≡◌, ◌≢◌, ◌⊎◌, ◌↔◌, refl, inl, inr, Bool, true, false, Option,
  some, List, [], ◌∷◌, ◌++◌, All, arith, includes, eq_iff, not, collect-nil_iff, append-nil_iff,
}
use eventflow_kafka_microser.Js.Text.{not_blank, trim, trim_start, trim_end, is_space, is_empty}
use eventflow_kafka_microser.Js.Value.{
  Value, undefined, null, bool, num, str, buffer, arr, obj, Items, nil, get, Num, items_list,
}
use eventflow_kafka_microser.Js.Errors.{Result, ok, err, Thrown}
use eventflow_kafka_microser.Js.Host.{Host, int, is_object}
use eventflow_kafka_microser.Events.Types.{EventType, event_name}
use eventflow_kafka_microser.Events.Envelope.{event_schema_version, is_text}
use eventflow_kafka_microser.Events.Validate.{
  is_uuid_text, is_iso_text, is_uuid, is_iso_timestamp, is_non_empty_string, envelope_errors,
  event_type_errors, bad_causation, validate_event_envelope, required_errors, throw_all, check,
  is_string_with, is_positive_number, order_created_errors, validate_order_created_payload,
  validate_order_item, order_items_errors, items_errors, currencies, envelope_checks,
  validate_payment_processed_payload, validate_payment_failed_payload, payment_processed_fields,
  payment_failed_fields,
}
use Checks.{check-nil, throw_all-ok, uuid-not_blank, iso-not_blank}

-- A string of which the test holds.
abbrev pub IsText : (String → Bool) → Value → Type 0
IsText p v = (s : String) × (v ≡ str s) × (p s ≡ true)

pub record IsEnvelope (t : EventType) (v : Value) : Type 0 where
  pub object : is_object v ≡ true
  pub event_id : IsText is_uuid_text (get "eventId" v)
  pub event_type : get "eventType" v ≡ str (event_name t)
  pub version : get "version" v ≡ str event_schema_version
  pub timestamp : IsText is_iso_text (get "timestamp" v)
  pub correlation_id : IsText not_blank (get "correlationId" v)
  pub source : IsText not_blank (get "source" v)
  pub causation_id : (get "causationId" v ≡ undefined) ⊎ IsText is_uuid_text (get "causationId" v)
  pub payload : is_object (get "payload" v) ≡ true

pub non_empty_iff : (v : Value) → (is_non_empty_string v ≡ true) ↔ IsText not_blank v
unfolding is_non_empty_string
non_empty_iff (str s) = (λ h. (s, refl, h), λ (t, e, h). ground arith)
non_empty_iff v = ground arith

is_uuid_iff : (v : Value) → (is_uuid v ≡ true) ↔ IsText is_uuid_text v
unfolding is_uuid is_non_empty_string
is_uuid_iff (str s) = (λ h. (s, refl, ground arith), λ (t, e, h). ground (arith, uuid-not_blank s))
is_uuid_iff v = ground arith

is_iso_iff : (v : Value) → (is_iso_timestamp v ≡ true) ↔ IsText is_iso_text v
unfolding is_iso_timestamp is_non_empty_string
is_iso_iff (str s) = (λ h. (s, refl, ground arith), λ (t, e, h). ground (arith, iso-not_blank s))
is_iso_iff v = ground arith

pub is_text_iff : (t : String) (v : Value) → (is_text t v ≡ true) ↔ (v ≡ str t)
unfolding is_text
is_text_iff t (str s) = ground (arith, eq_iff s t)
is_text_iff t v = ground arith

event_name-not_blank : (t : EventType) → not_blank (event_name t) ≡ true
unfolding event_name not_blank trim trim_start trim_end is_space is_empty
event_name-not_blank EventType.order_created = refl
event_name-not_blank _ = refl

event_type_iff :
    (t : EventType) (v : Value) → (event_type_errors v (some t) ≡ []) ↔ (v ≡ str (event_name t))
unfolding event_type_errors is_non_empty_string is_text
event_type_iff t (str s) = ground (arith, eq_iff s (event_name t), event_name-not_blank t)
event_type_iff t v = ground arith

causation_iff : (v : Value) → (bad_causation v ≡ false) ↔ ((v ≡ undefined) ⊎ IsText is_uuid_text v)
unfolding bad_causation is_uuid is_non_empty_string
causation_iff undefined = ground arith
causation_iff (str s) = (
  λ h. inr ((is_uuid_iff (str s)).0 (ground arith)),
  λ h. elim h [ inl e ↦ cc | inr u ↦ ground (arith, (is_uuid_iff (str s)).1 u) ],
)
causation_iff v = ground arith

pub passes : (b : Bool) (m : String) → (check (not b) m ≡ []) ↔ (b ≡ true)
passes b m = ground arith

envelope_errors-IsEnvelope :
    (t : EventType) (v : Value)
    → is_object v ≡ true
    → envelope_errors v (some t) ≡ []
    → IsEnvelope t v
unfolding envelope_errors envelope_checks
envelope_errors-IsEnvelope t v object h =
    let (a, (b, (c, (d, (e, (f, (g, (i, _)))))))) =
      (collect-nil_iff (envelope_checks v (some t))).0 h in
    record {
      object = object;
      event_id = (is_uuid_iff _).0 ((passes _ _).0 a);
      event_type = (event_type_iff t _).0 b;
      version = (is_text_iff _ _).0 ((passes _ _).0 c);
      timestamp = (is_iso_iff _).0 ((passes _ _).0 d);
      correlation_id = (non_empty_iff _).0 ((passes _ _).0 e);
      source = (non_empty_iff _).0 ((passes _ _).0 f);
      causation_id = (causation_iff _).0 ((check-nil _ _).0 g);
      payload = (passes _ _).0 i;
    }

envelope_errors-nil : (t : EventType) (v : Value) → IsEnvelope t v → envelope_errors v (some t) ≡ []
unfolding envelope_errors envelope_checks
envelope_errors-nil t v w = (collect-nil_iff (envelope_checks v (some t))).1 (
  (passes _ _).1 ((is_uuid_iff _).1 w.event_id),
  (
    (event_type_iff t _).1 w.event_type,
    (
      (passes _ _).1 ((is_text_iff _ _).1 w.version),
      (
        (passes _ _).1 ((is_iso_iff _).1 w.timestamp),
        (
          (passes _ _).1 ((non_empty_iff _).1 w.correlation_id),
          (
            (passes _ _).1 ((non_empty_iff _).1 w.source),
            (
              (check-nil _ _).1 ((causation_iff _).1 w.causation_id),
              ((passes _ _).1 w.payload, tt),
            ),
          ),
        ),
      ),
    ),
  ),
)

-- The guard of the validators: an object passes on to the checks, and no other value does.
pub guard_iff :
    (b : Bool) (e : Thrown) (m : String) (es : List String)
    → ((if not b then err e else throw_all m es) ≡ ok tt) ↔ ((b ≡ true) × (es ≡ []))
guard_iff true e m es = let (to, from) = throw_all-ok m es in (λ h. (refl, to h), λ h. from h.1)
guard_iff false e m es = ground arith

-- The envelope's validator accepts exactly the envelopes of the expected type.
pub validate_event_envelope_iff :
    (t : EventType) (v : Value) → (validate_event_envelope v (some t) ≡ ok tt) ↔ IsEnvelope t v
unfolding validate_event_envelope
validate_event_envelope_iff t v =
    let (to, from) = guard_iff (is_object v) _ _ _ in
    (
      λ h. envelope_errors-IsEnvelope t v (to h).0 (to h).1,
      λ w. from (w.object, envelope_errors-nil t v w),
    )

-- The fields that both payment validators require.
required_iff :
    (v : Value) (ks : List String)
    → (required_errors v ks ≡ []) ↔ All (λ k. IsText not_blank (get k v)) ks
unfolding required_errors
required_iff v [] = (λ h. tt, λ h. refl)
required_iff v (k ∷ ks) =
    let (to, from) = required_iff v ks in
    let (split, join) = append-nil_iff _ (required_errors v ks) in
    (
      λ h. ((non_empty_iff _).0 ((passes _ _).0 (split h).0), to (split h).1),
      λ w. join ((passes _ _).1 ((non_empty_iff _).1 w.0), from w.1),
    )

-- The fields of `data` are strings that are not blank.
abbrev pub HasTexts : List String → Value → Type 0
HasTexts ks v = (is_object v ≡ true) × All (λ k. IsText not_blank (get k v)) ks

pub validate_payment_processed_payload_iff :
    (v : Value)
    → (validate_payment_processed_payload v ≡ ok tt) ↔ HasTexts payment_processed_fields v
unfolding validate_payment_processed_payload
validate_payment_processed_payload_iff v =
    let (to, from) = guard_iff (is_object v) _ _ _ in
    let (all, none) = required_iff v payment_processed_fields in
    (λ h. ((to h).0, all (to h).1), λ w. from (w.0, none w.1))

pub validate_payment_failed_payload_iff :
    (v : Value) → (validate_payment_failed_payload v ≡ ok tt) ↔ HasTexts payment_failed_fields v
unfolding validate_payment_failed_payload
validate_payment_failed_payload_iff v =
    let (to, from) = guard_iff (is_object v) _ _ _ in
    let (all, none) = required_iff v payment_failed_fields in
    (λ h. ((to h).0, all (to h).1), λ w. from (w.0, none w.1))
