-- ===== src/Saga/Envelopes.antt =====
-- The envelopes that the services build, as the consumers' pipelines read them.
use eventflow_kafka_microser.Prelude.{◌≡◌, refl, ℕ, String, true, ◌⊎◌}
use eventflow_kafka_microser.Js.Value.{Value, str, get, prop, undefined, has}
use eventflow_kafka_microser.Js.Host.{Host, is_object}
use eventflow_kafka_microser.Js.Errors.{ok}
use eventflow_kafka_microser.Events.Types.{EventType, event_name}
use eventflow_kafka_microser.Events.Envelope.{envelope_object, event_schema_version}
use eventflow_kafka_microser.Events.Validate.{is_uuid_text, is_iso_text}
use eventflow_kafka_microser.Js.Text.{not_blank}
use eventflow_kafka_microser.Kafka.Consume.{
  deserialize_and_extract, deserialize_kafka_payload, extract_envelope,
}
use eventflow_kafka_microser.Events.Validate.Sound.{IsText, IsEnvelope}
use eventflow_kafka_microser.Events.Validate.Sound.Checks.{uuid-not_blank, iso-not_blank}

-- `randomUUID()` gives a UUID of version 4, and `toISOString()` a time of UTC with milliseconds.
pub record Generators (H : Host) : Type 0 where
  pub uuid_fits : (n : ℕ) → is_uuid_text (H.uuid n) ≡ true
  pub iso_fits : (n : ℕ) → is_iso_text (H.iso n) ≡ true

module _ ⦃H : Host⦄ where
  -- An envelope as `createEventEnvelope` builds it, by the numbers of its two draws.
  abbrev pub built : EventType → ℕ → ℕ → String → Value → String → Value → Value
  built t n k id cause source payload =
      envelope_object (str (H.uuid n)) (str (event_name t)) (str event_schema_version)
        (str (H.iso k)) (str id) cause (str source) payload

  pub built-IsEnvelope :
      (G : Generators H) (t : EventType) (n k : ℕ) (id : String) (cause : Value) (source : String)
      (payload : Value)
      → not_blank id ≡ true
      → not_blank source ≡ true
      → (cause ≡ undefined) ⊎ IsText is_uuid_text cause
      → is_object payload ≡ true
      → IsEnvelope t (built t n k id cause source payload)
  unfolding envelope_object get prop
  built-IsEnvelope G t n k id cause source payload i s c p = record {
    object = refl;
    event_id = (_, refl, G.uuid_fits n);
    event_type = refl;
    version = refl;
    timestamp = (_, refl, G.iso_fits k);
    correlation_id = (_, refl, i);
    source = (_, refl, s);
    causation_id = c;
    payload = p;
  }

  -- The object itself is read back: the client's serializer and `JSON.parse` stand outside.
  pub deserialize_and_extract-built :
      (t : EventType) (n k : ℕ) (id : String) (cause : Value) (source : String) (payload : Value)
      → deserialize_and_extract (built t n k id cause source payload)
        ≡ ok (built t n k id cause source payload)
  unfolding deserialize_and_extract deserialize_kafka_payload extract_envelope envelope_object has
  deserialize_and_extract-built t n k id cause source payload = refl

  pub uuid-not_blank_draw : Generators H → (n : ℕ) → not_blank (H.uuid n) ≡ true
  uuid-not_blank_draw G n = uuid-not_blank _ (G.uuid_fits n)

  pub iso-not_blank_draw : Generators H → (n : ℕ) → not_blank (H.iso n) ≡ true
  iso-not_blank_draw G n = iso-not_blank _ (G.iso_fits n)
