-- ===== src/Kafka/Consume/Accepts.antt =====
-- Which messages the consumer pipelines accept, skip and refuse.
use eventflow_kafka_microser.Js.Errors.{
  ◌>>=◌, Result, Thrown, ok, err, is_validation, validation, >>=-ok_path, map_error,
}
use eventflow_kafka_microser.Prelude.{
  String, Bool, List, ◌≡◌, Option, true, ◌↔◌, if◌then◌else◌, not, inl, ◌∷◌, ap, inr, arith, [], sym,
  refl, eq_iff, false, some, Bool-cases, ◌≢◌, ◌∙◌, subst,
}
use eventflow_kafka_microser.Events.Validate.{
  validate_event_envelope, throw_all, validate_order_created_payload,
  validate_payment_processed_payload, validate_payment_failed_payload,
}
use eventflow_kafka_microser.Kafka.Consume.{
  same_text, validated, accepted, deserialize_and_extract, as_validation, deserialize_kafka_payload,
  extract_envelope, skipped, Parsed, skip,
}
use eventflow_kafka_microser.Js.Host.{Host, is_object}
use eventflow_kafka_microser.Js.Value.{Value, str, get}
use eventflow_kafka_microser.Events.Types.{EventType, event_name}
use eventflow_kafka_microser.Events.Validate.Sound.{
  IsEnvelope, validate_event_envelope_iff, is_text_iff,
}
use eventflow_kafka_microser.Events.Envelope.{is_event_type}

-- An envelope of the event type, with a payload that its validator accepts, whose correlation id
-- is the order's id.
pub record IsAccepted (t : EventType) (P : Value → Type 0) (v : Value) : Type 0 where
  pub envelope : IsEnvelope t v
  pub payload : P (get "payload" v)
  pub correlated :
      (id : String) × (get "correlationId" v ≡ str id) × (get "orderId" (get "payload" v) ≡ str id)

-- Whatever is thrown is an `EventValidationError`.
abbrev pub ThrowsValidation {ℓ} : {A : Type ℓ} → Result A → Type ℓ
ThrowsValidation r = (e : Thrown) → r ≡ err e → is_validation e ≡ true

pub bind-ThrowsValidation {ℓ} :
    {A B : Type ℓ} (r : Result A) (f : A → Result B)
    → ThrowsValidation r
    → ((a : A) → ThrowsValidation (f a))
    → ThrowsValidation (r >>= f)
bind-ThrowsValidation (ok a) f h k e p = k a e p
bind-ThrowsValidation (err x) f h k e p = let q : x ≡ e = cc in rw q at (h x refl)

pub if-ThrowsValidation {ℓ} :
    {A : Type ℓ} (b : Bool) (r s : Result A)
    → ThrowsValidation r
    → ThrowsValidation s
    → ThrowsValidation (if b then r else s)
if-ThrowsValidation true r s h k = h
if-ThrowsValidation false r s h k = k

throw-ThrowsValidation {ℓ} :
    {A : Type ℓ} (m : String) (ds : List String) → ThrowsValidation {A = A} (err (validation m ds))
throw-ThrowsValidation m ds e h = ground arith

pub ok-ThrowsValidation {ℓ} : {A : Type ℓ} (a : A) → ThrowsValidation (ok a)
ok-ThrowsValidation a e h = cc

throw_all-ThrowsValidation : (m : String) (es : List String) → ThrowsValidation (throw_all m es)
throw_all-ThrowsValidation m [] = ok-ThrowsValidation tt
throw_all-ThrowsValidation m (x ∷ xs) = throw-ThrowsValidation m (x ∷ xs)

validate_event_envelope-ThrowsValidation :
    (v : Value) (t : Option EventType) → ThrowsValidation (validate_event_envelope v t)
unfolding validate_event_envelope
validate_event_envelope-ThrowsValidation v t =
    if-ThrowsValidation (not (is_object v)) _ _ (throw-ThrowsValidation _ [])
      (throw_all-ThrowsValidation _ _)

same_text_iff :
    (a b : Value) → (same_text a b ≡ true) ↔ ((id : String) × (a ≡ str id) × (b ≡ str id))
unfolding same_text
same_text_iff (str a) (str b) =
    (λ h. (a, refl, ap str (sym ((eq_iff a b).0 h))), λ (i, p, q). ground (arith, eq_iff a b))
same_text_iff (str a) b = ground arith
same_text_iff a b = ground arith

module _ ⦃H : Host⦄ (t : EventType) (vp : Value → Result (Unit {0})) (P : Value → Type 0)
    (vp_iff : (v : Value) → (vp v ≡ ok tt) ↔ P v) (m : String) where
  validated_iff :
      (v w : Value) → (validated t vp m v ≡ ok (accepted w)) ↔ ((v ≡ w) × IsAccepted t P v)
  unfolding validated
  validated_iff v w = (
    λ h.
        let (_, valid, h') = >>=-ok_path (validate_event_envelope v (some t)) _ h in
        let (_, fits, rest) = >>=-ok_path (vp (get "payload" v)) _ h' in
        elim (Bool-cases (same_text (get "correlationId" v) (get "orderId" (get "payload" v)))) [
          | inl same ↦ (
            ground arith,
            record {
              envelope = (validate_event_envelope_iff t v).0 valid;
              payload = (vp_iff _).0 fits;
              correlated = (same_text_iff _ _).0 same;
            },
          )
          | inr other ↦ ground arith
        ],
    λ (e, a).
        let valid = (validate_event_envelope_iff t v).1 a.envelope in
        let fits = (vp_iff (get "payload" v)).1 a.payload in
        let same = (same_text_iff _ _).1 a.correlated in ground arith,
  )

  validated-ne-skipped :
      (v : Value) (r : String) (x : Value) → validated t vp m v ≢ ok (skipped r x)
  unfolding validated
  validated-ne-skipped v r x h =
      let (_, valid, h') = >>=-ok_path (validate_event_envelope v (some t)) _ h in
      let (_, fits, rest) = >>=-ok_path (vp (get "payload" v)) _ h' in ground arith

  module _ (is_event : Value → Bool)
      (is_event_iff : (v : Value)
        → (is_event v ≡ true) ↔ (get "eventType" v ≡ str (event_name t))) where
    -- The shape that the three pipelines share.
    abbrev pub pipeline : Value → Result Parsed
    pipeline raw =
        deserialize_and_extract raw >>= λ u. if is_event u then validated t vp m u else skip u

    pub pipeline-accepted_iff :
        (raw v : Value)
        → (pipeline raw ≡ ok (accepted v))
          ↔ ((deserialize_and_extract raw ≡ ok v) × IsAccepted t P v)
    pipeline-accepted_iff raw v = (
      λ h.
          let (u, read, rest) = >>=-ok_path (deserialize_and_extract raw) _ h in
          elim (Bool-cases (is_event u)) [
            | inl event ↦
                let (same, fine) = (validated_iff u v).0 (rw event at rest) in
                (read ∙ ap ok same, subst (IsAccepted t P) same fine)
            | inr other ↦ ground arith
          ],
      λ (read, fine).
          let event = (is_event_iff v).1 (fine.envelope.event_type) in
          rw (read, event) ((validated_iff v v).1 (refl, fine)),
    )

    pub pipeline-skipped_iff :
        (raw : Value) (reason : String) (x : Value)
        → (pipeline raw ≡ ok (skipped reason x)) ↔ (
            (u : Value) × (deserialize_and_extract raw ≡ ok u)
            × (get "eventType" u ≢ str (event_name t))
            × (reason ≡ "unsupported-event-type")
            × (x ≡ get "eventType" u))
    pipeline-skipped_iff raw reason x = (
      λ h.
          let (u, read, rest) = >>=-ok_path (deserialize_and_extract raw) _ h in
          elim (Bool-cases (is_event u)) [
            | inl event ↦ absurd (validated-ne-skipped u reason x (rw event at rest))
            | inr other ↦
                (u, read, λ e. cc (other, (is_event_iff u).1 e), ground arith, ground arith)
          ],
      λ (u, read, ne, r, e). elim (Bool-cases (is_event u)) [
        | inl event ↦ absurd (ne ((is_event_iff u).0 event))
        | inr other ↦ rw (read, other, r, e)
      ],
    )

  pub validated-ThrowsValidation :
      ((u : Value) → ThrowsValidation (vp u)) → (v : Value) → ThrowsValidation (validated t vp m v)
  unfolding validated
  validated-ThrowsValidation refused v =
      bind-ThrowsValidation (validate_event_envelope v (some t)) _
        (validate_event_envelope-ThrowsValidation v (some t))
        (λ _. bind-ThrowsValidation (vp (get "payload" v)) _ (refused (get "payload" v)) (λ _.
          if-ThrowsValidation (same_text (get "correlationId" v) (get "orderId" (get "payload" v)))
            _ _ (ok-ThrowsValidation _) (throw-ThrowsValidation m _)))

pub is_event_type_iff :
    (v : Value) (t : EventType)
    → (is_event_type v t ≡ true) ↔ (get "eventType" v ≡ str (event_name t))
unfolding is_event_type
is_event_type_iff v t = is_text_iff (event_name t) (get "eventType" v)

pub validate_payment_processed_payload-ThrowsValidation :
    (v : Value) → ThrowsValidation (validate_payment_processed_payload v)
unfolding validate_payment_processed_payload
validate_payment_processed_payload-ThrowsValidation v =
    if-ThrowsValidation (not (is_object v)) _ _ (throw-ThrowsValidation _ [])
      (throw_all-ThrowsValidation _ _)

pub validate_payment_failed_payload-ThrowsValidation :
    (v : Value) → ThrowsValidation (validate_payment_failed_payload v)
unfolding validate_payment_failed_payload
validate_payment_failed_payload-ThrowsValidation v =
    if-ThrowsValidation (not (is_object v)) _ _ (throw-ThrowsValidation _ [])
      (throw_all-ThrowsValidation _ _)

module _ ⦃H : Host⦄ where
  pub validate_order_created_payload-ThrowsValidation :
      (v : Value) → ThrowsValidation (validate_order_created_payload v)
  unfolding validate_order_created_payload
  validate_order_created_payload-ThrowsValidation v =
      if-ThrowsValidation (not (is_object v)) _ _ (throw-ThrowsValidation _ [])
        (throw_all-ThrowsValidation _ _)

  map_error-ThrowsValidation {ℓ} :
      {A : Type ℓ} (m : String) (r : Result A) → ThrowsValidation (map_error (as_validation m) r)
  map_error-ThrowsValidation m (ok a) = ok-ThrowsValidation a
  map_error-ThrowsValidation m (err e) = throw-ThrowsValidation m _

  pub deserialize_and_extract-ThrowsValidation :
      (raw : Value) → ThrowsValidation (deserialize_and_extract raw)
  unfolding deserialize_and_extract
  deserialize_and_extract-ThrowsValidation raw =
      bind-ThrowsValidation _ _ (map_error-ThrowsValidation _ (deserialize_kafka_payload raw))
        (λ v. map_error-ThrowsValidation _ (extract_envelope v))
