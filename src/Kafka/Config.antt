-- ===== src/Kafka/Config.antt =====
-- The connections of the services from the environment: shared/src/kafka/kafka-brokers.ts,
-- consumer-groups.ts and consumer-config.ts.
pub mod Clients
pub mod Laws
use Prim.Native.Char.{Char, code}
use eventflow_kafka_microser.Prelude.{
  ℕ, String, Bool, true, false, not, Option, none, some, List, [], ◌∷◌, map, filter, concat, join,
  eqb, if◌then◌else◌, ◌==◌,
}
use eventflow_kafka_microser.Js.Value.{Num}
use eventflow_kafka_microser.Js.Host.{Host, int, max_num}
use eventflow_kafka_microser.Js.Text.{trim, is_empty}
use eventflow_kafka_microser.Events.Catalog.{
  ServiceName, order_service, payment_service, stock_service, notification_service, dlq_service,
  service_name,
}
use eventflow_kafka_microser.Kafka.Retry.{
  RetryPolicyConfig, resolve_producer_retry_policy, no_overrides, or_else_env,
}

-- A character before the first part.
abbrev pub longer : Char → List String → List String
longer c [] = String.◌∷◌ c "" ∷ []
longer c (part ∷ parts) = String.◌∷◌ c part ∷ parts

-- `text.split(c)` for one character
unfoldable pub split : ℕ → String → List String
split c String.[] = "" ∷ []
split c (String.◌∷◌ ch s) =
    let rest = split c s in if eqb (code ch) c then "" ∷ rest else longer ch rest

-- `value?.trim()`
abbrev pub trimmed : Option String → Option String
trimmed none = none
trimmed (some s) = some (trim s)

-- A text as a condition: only the empty text counts as absent.
abbrev pub present : Option String → Option String
present none = none
present (some s) = if is_empty s then none else some s

-- `a ?? b`
abbrev pub default_text : Option String → String → String
default_text none b = b
default_text (some a) b = a

-- `suffix ? `${base}${suffix}` : base`
unfoldable pub group_with : String → Option String → String
unfolding concat
group_with base none = base
group_with base (some suffix) = concat (base ∷ suffix ∷ [])

-- `ConsumerGroup`, by service
unfoldable pub consumer_group_by_service : ServiceName → String
consumer_group_by_service order_service = "eventflow.order-service"
consumer_group_by_service payment_service = "eventflow.payment-service"
consumer_group_by_service stock_service = "eventflow.stock-service"
consumer_group_by_service notification_service = "eventflow.notification-service"
consumer_group_by_service dlq_service = "eventflow.dlq-service"

-- `service.toUpperCase().replace(/-/g, '_')`
unfoldable pub env_name : ServiceName → String
env_name order_service = "ORDER_SERVICE"
env_name payment_service = "PAYMENT_SERVICE"
env_name stock_service = "STOCK_SERVICE"
env_name notification_service = "NOTIFICATION_SERVICE"
env_name dlq_service = "DLQ_SERVICE"

-- `KafkaConsumerConnectionInfo`
pub record ConnectionInfo : Type 0 where
  pub service : ServiceName
  pub client_id : String
  pub brokers : List String
  pub group_id : String
  pub from_beginning : Bool
  pub session_timeout_ms : Num
  pub heartbeat_interval_ms : Num

-- `value === 'true'` for a variable
abbrev is_true : Option String → Bool
is_true none = false
is_true (some s) = s == "true"

module _ ⦃H : Host⦄ where
  -- `Number(process.env[name] ?? fallback)`, for a whole number
  abbrev pub env_number : String → ℕ → Num
  env_number name fallback = elim (H.env name) [ none ↦ int fallback | some s ↦ H.parse s ]

  -- `process.env.KAFKA_BOOTSTRAP_SERVERS ?? 'localhost:9092'`
  unfoldable pub bootstrap_servers : String
  bootstrap_servers = default_text (H.env "KAFKA_BOOTSTRAP_SERVERS") "localhost:9092"

  unfoldable pub resolve_kafka_brokers : List String
  resolve_kafka_brokers = filter (λ b. not (is_empty b)) (map trim (split b',' bootstrap_servers))

  unfoldable pub consumer_group_env_key : ServiceName → String
  unfolding concat
  consumer_group_env_key service = concat ("KAFKA_CONSUMER_GROUP_" ∷ env_name service ∷ [])

  unfoldable pub resolve_consumer_group : ServiceName → String
  unfolding group_with
  resolve_consumer_group service =
      elim (present (trimmed (H.env (consumer_group_env_key service)))) [
        | some explicit ↦ explicit
        | none ↦
            group_with (consumer_group_by_service service)
              (present (trimmed (H.env "KAFKA_CONSUMER_GROUP_SUFFIX")))
      ]

  unfoldable pub resolve_consumer_client_id : ServiceName → String
  unfolding concat
  resolve_consumer_client_id service =
      let base = concat (service_name service ∷ "-consumer" ∷ []) in
      let suffix =
        or_else_env (trimmed (H.env "KAFKA_CONSUMER_CLIENT_ID_SUFFIX"))
          (trimmed (H.env "HOSTNAME")) in
      elim (present
        (trimmed (H.env (concat ("KAFKA_CONSUMER_CLIENT_ID_" ∷ env_name service ∷ []))))) [
          | some explicit ↦ explicit
          | none ↦ elim (present suffix) [ none ↦ base | some s ↦ concat (base ∷ "-" ∷ s ∷ []) ]
        ]

  unfoldable pub get_kafka_consumer_connection_info : ServiceName → ConnectionInfo
  get_kafka_consumer_connection_info service = record {
    service = service;
    client_id = resolve_consumer_client_id service;
    brokers = resolve_kafka_brokers;
    group_id = resolve_consumer_group service;
    from_beginning = is_true (H.env "KAFKA_FROM_BEGINNING");
    session_timeout_ms = env_number "KAFKA_CONSUMER_SESSION_TIMEOUT_MS" 30000;
    heartbeat_interval_ms = env_number "KAFKA_CONSUMER_HEARTBEAT_INTERVAL_MS" 3000;
  }

  abbrev bool_text : Bool → String
  bool_text true = "true"
  bool_text false = "false"

  unfoldable pub format_kafka_consumer_bootstrap : ConnectionInfo → String
  unfolding concat join
  format_kafka_consumer_bootstrap info = join " " (
      concat ("Kafka consumer: service=" ∷ service_name info.service ∷ [])
      ∷ concat ("brokers=[" ∷ join ", " info.brokers ∷ "]" ∷ [])
      ∷ concat ("groupId=" ∷ info.group_id ∷ [])
      ∷ concat ("clientId=" ∷ info.client_id ∷ [])
      ∷ concat ("fromBeginning=" ∷ bool_text info.from_beginning ∷ [])
      ∷ [])
