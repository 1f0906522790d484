-- ===== src/Kafka/Publisher/Keys.antt =====
-- The records that carry events: topic, key and value.
use eventflow_kafka_microser.Prelude.{◌≡◌, refl, sym, ap, String, arith, ◌∙◌}
use eventflow_kafka_microser.Js.Host.{Host, Message}
use eventflow_kafka_microser.Js.Errors.{Result, ok, err, map_ok}
use eventflow_kafka_microser.Js.Value.{Value, Fields, get, str, buffer, arr, obj}
use eventflow_kafka_microser.Events.Types.{EventType}
use eventflow_kafka_microser.Kafka.Wire.{
  partition_key, get_partition_key_from_payload, resolve_partition_key,
}
use eventflow_kafka_microser.Kafka.Publisher.{event_message}
use eventflow_kafka_microser.Events.Topics.{resolve_kafka_topic}

pub map_ok-ok {ℓ κ} :
    {A : Type ℓ} {B : Type κ} (f : A → B) (r : Result A) {b : B}
    → map_ok f r ≡ ok b
    → (a : A) × (r ≡ ok a) × (f a ≡ b)
map_ok-ok f (ok a) e = (a, refl, cc)
map_ok-ok f (err x) e = cc

partition_key-ok : (v : Value) (k : String) → partition_key v ≡ ok k → v ≡ str k
partition_key-ok (str s) k e = ground arith
partition_key-ok v k e = cc

get_partition_key_from_payload-ok :
    (payload : Value) (k : String)
    → get_partition_key_from_payload payload ≡ ok k
    → get "orderId" payload ≡ str k
unfolding get_partition_key_from_payload
get_partition_key_from_payload-ok (obj fs) k e = partition_key-ok _ k e
get_partition_key_from_payload-ok (buffer s) k e = partition_key-ok _ k e
get_partition_key_from_payload-ok (arr xs) k e = partition_key-ok _ k e
get_partition_key_from_payload-ok v k e = cc

module _ ⦃H : Host⦄ where
  -- A record that can be built for an event goes to the topic of its type, with the whole envelope as
  -- its value, and its key is the `orderId` of the payload.
  pub event_message-keyed :
      (t : EventType) (v : Value) (h : Fields) (m : Message)
      → event_message t v h ≡ ok m
      → (m.topic ≡ resolve_kafka_topic t)
        × (m.value ≡ v)
        × (m.key ≡ get "orderId" (get "payload" v))
  unfolding event_message resolve_partition_key
  event_message-keyed t v h m e =
      let (k, r, q) = map_ok-ok _ (get_partition_key_from_payload (get "payload" v)) e in
      (
        sym (ap (λ x. x.topic) q),
        sym (ap (λ x. x.value) q),
        sym (ap (λ x. x.key) q) ∙ sym (get_partition_key_from_payload-ok _ k r),
      )
