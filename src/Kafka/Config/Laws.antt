-- ===== src/Kafka/Config/Laws.antt =====
-- The brokers, the consumer groups and the retries that the configuration comes to.
use eventflow_kafka_microser.Prelude.{
  ◌≡◌, refl, String, false, not, Option, none, some, List, [], ◌∷◌, All, map, filter, concat, ◌∙◌,
  ap, sym, Bool-cases, inl, inr, ◌↔◌, if◌then◌else◌, ◌==◌, ℕ, ◌≤◌, ◌-◌, ltb, arith,
}
use text.Mathlib.TextLemmas.{append_cancel_right}
use eventflow_kafka_microser.Js.Text.{trim, is_empty, not_blank}
use eventflow_kafka_microser.Js.Text.Trim.{trim-twice}
use eventflow_kafka_microser.Js.Host.{Host, int}
use eventflow_kafka_microser.Kafka.Config.{
  consumer_group_by_service, group_with, resolve_kafka_brokers, resolve_consumer_group, split,
  present, trimmed, consumer_group_env_key, bootstrap_servers,
}
use eventflow_kafka_microser.Kafka.Config.Clients.{
  get_kafka_client_config, get_kafka_consumer_config,
}
use eventflow_kafka_microser.Events.Catalog.{
  ServiceName, order_service, payment_service, stock_service, notification_service, dlq_service,
}
use eventflow_kafka_microser.Js.Host.Laws.{
  WholeNumbers, WholeArithmetic, max_safe_integer, max_num-int,
}
use eventflow_kafka_microser.Kafka.Retry.{resolve_producer_retry_policy, no_overrides}

-- An entry of the broker list: some text, without space at its ends.
abbrev pub IsBroker : String → Type 0
IsBroker b = (is_empty b ≡ false) × (trim b ≡ b)

-- The entries among the parts of a list.
abbrev entries : List String → List String
entries parts = filter (λ b. not (is_empty b)) (map trim parts)

entries-IsBroker : (parts : List String) → All IsBroker (entries parts)
entries-IsBroker [] = tt
entries-IsBroker (p ∷ ps) = elim (Bool-cases (is_empty (trim p))) [
  | inl h ↦ rw h (entries-IsBroker ps)
  | inr h ↦ rw h ((h, trim-twice p), entries-IsBroker ps)
]

entries-nil : (parts : List String) → (entries parts ≡ []) ↔ All (λ p. not_blank p ≡ false) parts
unfolding not_blank
entries-nil [] = (λ h. tt, λ h. refl)
entries-nil (p ∷ ps) =
    let (to, from) = entries-nil ps in
    elim (Bool-cases (is_empty (trim p))) [
      | inl h ↦ rw h (λ k. (refl, to k), λ k. from k.1)
      | inr h ↦ rw h (λ k. cc, λ k. cc)
    ]

-- The service of a default group.
abbrev service_of : String → ServiceName
service_of group =
    if group == "eventflow.order-service"
    then order_service
    else if group == "eventflow.payment-service"
    then payment_service
    else if group == "eventflow.stock-service"
    then stock_service
    else if group == "eventflow.notification-service"
    then notification_service
    else dlq_service

service_of-consumer_group : (a : ServiceName) → service_of (consumer_group_by_service a) ≡ a
unfolding consumer_group_by_service
service_of-consumer_group order_service = refl
service_of-consumer_group payment_service = refl
service_of-consumer_group stock_service = refl
service_of-consumer_group notification_service = refl
service_of-consumer_group dlq_service = refl

consumer_group_by_service-injective :
    (a b : ServiceName) → consumer_group_by_service a ≡ consumer_group_by_service b → a ≡ b
consumer_group_by_service-injective a b e =
    sym (service_of-consumer_group a) ∙ ap service_of e ∙ service_of-consumer_group b

group_with-injective :
    (a b : String) (suffix : Option String) → group_with a suffix ≡ group_with b suffix → a ≡ b
unfolding group_with concat
group_with-injective a b none h = h
group_with-injective a b (some s) h = append_cancel_right a b s h

module _ ⦃H : Host⦄ where
  -- Each entry of the broker list is some text without space at its ends, and the list is empty
  -- exactly if every part of the variable, split at its commas, is blank.
  pub resolve_kafka_brokers-IsBroker :
      All IsBroker resolve_kafka_brokers
      × ((resolve_kafka_brokers ≡ [])
          ↔ All (λ p. not_blank p ≡ false) (split b',' bootstrap_servers))
  unfolding resolve_kafka_brokers
  resolve_kafka_brokers-IsBroker =
      (entries-IsBroker (split b',' bootstrap_servers), entries-nil (split b',' bootstrap_servers))

  resolve_consumer_group-default :
      (a : ServiceName)
      → present (trimmed (H.env (consumer_group_env_key a))) ≡ none
      → resolve_consumer_group a
        ≡ group_with
            (consumer_group_by_service a)
            (present (trimmed (H.env "KAFKA_CONSUMER_GROUP_SUFFIX")))
  unfolding resolve_consumer_group
  resolve_consumer_group-default a h = rw (resolve_consumer_group, h) refl

  -- Two services that have no group of their own in the environment are in different consumer groups,
  -- whatever the suffix that all groups share: neither takes the other's messages.
  pub resolve_consumer_group-injective :
      (a b : ServiceName)
      → present (trimmed (H.env (consumer_group_env_key a))) ≡ none
      → present (trimmed (H.env (consumer_group_env_key b))) ≡ none
      → resolve_consumer_group a ≡ resolve_consumer_group b
      → a ≡ b
  resolve_consumer_group-injective a b h k e = consumer_group_by_service-injective a b (
      group_with-injective _ _ (present (trimmed (H.env "KAFKA_CONSUMER_GROUP_SUFFIX")))
        (sym (resolve_consumer_group-default a h) ∙ e ∙ resolve_consumer_group-default b k))

module _ ⦃H : Host⦄ (N : WholeNumbers H) (A : WholeArithmetic H) where
  -- With a producer policy of m attempts, a whole number from 1 to `Number.MAX_SAFE_INTEGER`, the
  -- producer's client retries m - 1 times on its own, and the consumer's m times but at least 3; whole
  -- numbers in that range are exact.
  pub get_kafka_config-retries :
      (m : ℕ) (service : ServiceName) (client_id : String)
      → (resolve_producer_retry_policy no_overrides).max_attempts ≡ int m
      → 1 ≤ m
      → m ≤ max_safe_integer
      → ((get_kafka_client_config client_id).retry.retries ≡ int (m - 1))
        × ((get_kafka_consumer_config service).retry.retries ≡ int (if ltb m 3 then 3 else m))
  unfolding get_kafka_client_config get_kafka_consumer_config
  get_kafka_config-retries m service client_id e h s = (
    rw (e, A.sub_int m 1 s h)
        (max_num-int N A (m - 1) 0 (omega (arith, s)) (omega arith) ∙ ap int (ground arith)),
    rw e (max_num-int N A m 3 s (omega arith)),
  )
