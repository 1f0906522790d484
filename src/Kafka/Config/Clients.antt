-- ===== src/Kafka/Config/Clients.antt =====
-- The options of the Kafka clients and of the topics: shared/src/kafka/kafka-config.ts, and
-- `resolveKafkaTopicConfig` and `buildTopicCreateConfigs` of topic-config.ts.
use eventflow_kafka_microser.Prelude.{String, Bool, true, List, [], ◌∷◌, concat}
use eventflow_kafka_microser.Js.Value.{Num}
use eventflow_kafka_microser.Js.Host.{Host, int, max_num}
use eventflow_kafka_microser.Events.Catalog.{ServiceName}
use eventflow_kafka_microser.Kafka.Retry.{
  RetryPolicyConfig, resolve_producer_retry_policy, no_overrides,
}
use eventflow_kafka_microser.Kafka.Config.{
  env_number, resolve_kafka_brokers, get_kafka_consumer_connection_info,
}

-- The options of KafkaJS for its own retries.
pub record TransportRetry : Type 0 where
  pub retries : Num
  pub initial_retry_time : Num
  pub max_retry_time : Num
  pub multiplier : Num

-- `client` and `producer` of `getKafkaClientConfig`
pub record ClientConfig : Type 0 where
  pub producer_only_mode : Bool
  pub client_id : String
  pub brokers : List String
  pub allow_auto_topic_creation : Bool
  pub retry : TransportRetry

-- `getKafkaConsumerConfig`, its blocks side by side
pub record ConsumerConfig : Type 0 where
  pub client_id : String
  pub brokers : List String
  pub connection_timeout : Num
  pub retry : TransportRetry
  pub group_id : String
  pub session_timeout : Num
  pub heartbeat_interval : Num
  pub allow_auto_topic_creation : Bool
  pub from_beginning : Bool
  pub auto_commit : Bool

pub record KafkaTopicConfig : Type 0 where
  pub partitions : Num
  pub replication_factor : Num
  pub retention_ms : Num
  pub cleanup_policy : String

module _ ⦃H : Host⦄ where
  -- The block `retry`, around the number of retries.
  abbrev transport_retry : Num → RetryPolicyConfig → TransportRetry
  transport_retry retries policy = record {
    retries = retries;
    initial_retry_time = policy.base_delay_ms;
    max_retry_time = policy.max_delay_ms;
    multiplier = policy.backoff_multiplier;
  }

  unfoldable pub get_kafka_client_config : String → ClientConfig
  get_kafka_client_config client_id =
      let producer_retry = resolve_producer_retry_policy no_overrides in
      record {
        producer_only_mode = true;
        client_id = client_id;
        brokers = resolve_kafka_brokers;
        allow_auto_topic_creation = true;
        retry =
            transport_retry (max_num (H.sub producer_retry.max_attempts (int 1)) (int 0))
              producer_retry;
      }

  unfoldable pub get_kafka_consumer_config : ServiceName → ConsumerConfig
  get_kafka_consumer_config service =
      let connection = get_kafka_consumer_connection_info service in
      let producer_retry = resolve_producer_retry_policy no_overrides in
      record {
        client_id = connection.client_id;
        brokers = connection.brokers;
        connection_timeout = env_number "KAFKA_CONNECTION_TIMEOUT_MS" 10000;
        retry = transport_retry (max_num producer_retry.max_attempts (int 3)) producer_retry;
        group_id = connection.group_id;
        session_timeout = connection.session_timeout_ms;
        heartbeat_interval = connection.heartbeat_interval_ms;
        allow_auto_topic_creation = true;
        from_beginning = connection.from_beginning;
        auto_commit = true;
      }

  -- `resolveKafkaTopicConfig` without overrides
  unfoldable pub resolve_kafka_topic_config : KafkaTopicConfig
  resolve_kafka_topic_config = record {
    partitions = env_number "KAFKA_TOPIC_PARTITIONS" 3;
    replication_factor = env_number "KAFKA_TOPIC_REPLICATION_FACTOR" 1;
    retention_ms = env_number "KAFKA_TOPIC_RETENTION_MS" 604800000;
    cleanup_policy = "delete";
  }

  unfoldable pub build_topic_create_configs : KafkaTopicConfig → List String
  unfolding concat
  build_topic_create_configs config =
      concat ("retention.ms=" ∷ H.print config.retention_ms ∷ [])
      ∷ concat ("cleanup.policy=" ∷ config.cleanup_policy ∷ [])
      ∷ []
