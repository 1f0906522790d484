-- ===== src/Examples/Texts.antt =====
-- Tests of the texts that the services log, at concrete values.
use eventflow_kafka_microser.Prelude.{◌≡◌, refl, none, some, ◌∷◌, []}
use eventflow_kafka_microser.Js.Value.{double}
use eventflow_kafka_microser.Examples.Messages.{calm}
use eventflow_kafka_microser.Payment.Logs.{
  log_event_received, log_idempotency_skip, log_retry_scheduled, log_payment_success,
  log_payment_failed, log_payment_started,
}
use eventflow_kafka_microser.Kafka.Config.{
  format_kafka_consumer_bootstrap, get_kafka_consumer_connection_info, resolve_kafka_brokers, split,
  bootstrap_servers, resolve_consumer_group, resolve_consumer_client_id, consumer_group_by_service,
  consumer_group_env_key, group_with,
}
use eventflow_kafka_microser.Kafka.Config.Clients.{build_topic_create_configs}
use eventflow_kafka_microser.Events.Catalog.{order_service, service_name}
use eventflow_kafka_microser.Js.Text.{trim, trim_start, trim_end, is_space, is_empty}
use eventflow_kafka_microser.Kafka.Retry.{
  format_consumer_retry_policy, get_retry_backoff_schedule, backoffs_from, calculate_backoff_ms,
}

a_skip :
    log_idempotency_skip ⦃H = calm⦄ "duplicate_inbound_event_id" "e-1" "order-1"
    ≡ "[IDEMPOTENCY SKIP]\nreason=duplicate_inbound_event_id\neventId=e-1\norderId=order-1"
unfolding log_idempotency_skip trim trim_start trim_end is_space is_empty
a_skip = refl

a_failure :
    log_payment_failed ⦃H = calm⦄ "order-1" "payment-1" "declined" none none
    ≡ "[PAYMENT FAILED]\norderId=order-1\npaymentId=payment-1\nreason=declined\nfailureType=n/a\nsource=gateway_simulation"
unfolding log_payment_failed trim trim_start trim_end is_space is_empty
a_failure = refl

a_success :
    log_payment_success ⦃H = calm⦄ "order-1" "payment-1" (some "tx-1") (some (double 0)) none
    ≡ "[PAYMENT SUCCESS]\norderId=order-1\npaymentId=payment-1\nstatus=approved\ntransactionId=tx-1\namount=i\ncurrency=n/a"
unfolding log_payment_success trim trim_start trim_end is_space is_empty
a_success = refl

a_retry :
    log_retry_scheduled ⦃H = calm⦄ "e-1" "order-1" (double 0) (double 1) (double 2)
    ≡ "[PAYMENT RETRY]\neventId=e-1\norderId=order-1\nattempt=i/ii\nbackoffMs=iii"
unfolding log_retry_scheduled trim trim_start trim_end is_space is_empty
a_retry = refl

a_start :
    log_payment_started ⦃H = calm⦄ "order-1" (double 1) "BRL" (double 1)
    ≡ "[PAYMENT STARTED]\norderId=order-1\namount=ii\ncurrency=BRL\nsimulatedFailureRate=ii\nexpectedApprovalRate=i"
unfolding log_payment_started trim trim_start trim_end is_space is_empty
a_start = refl

a_receipt :
    log_event_received ⦃H = calm⦄ "order.events" "order.created" "e-1" "order-1" none none
    ≡ "[EVENT RECEIVED]\ntopic=order.events\neventType=order.created\neventId=e-1\norderId=order-1\npartitionKey=n/a\nretryCount=i"
unfolding log_event_received trim trim_start trim_end is_space is_empty
a_receipt = refl

a_bootstrap :
    format_kafka_consumer_bootstrap ⦃H = calm⦄
      (get_kafka_consumer_connection_info ⦃H = calm⦄ order_service)
    ≡ "Kafka consumer: service=order-service brokers=[localhost:9092] groupId=eventflow.order-service clientId=order-service-consumer fromBeginning=false"
unfolding format_kafka_consumer_bootstrap get_kafka_consumer_connection_info service_name
    resolve_kafka_brokers split bootstrap_servers is_empty trim trim_end trim_start is_space
    resolve_consumer_group resolve_consumer_client_id consumer_group_by_service
    consumer_group_env_key group_with
a_bootstrap = refl

a_policy :
    format_consumer_retry_policy ⦃H = calm⦄ (record {
      max_attempts = double 2;
      base_delay_ms = double 1;
      max_delay_ms = double 3;
      backoff_multiplier = double 1;
    })
    ≡ "maxAttempts=iii baseDelayMs=ii maxDelayMs=iiii backoffMultiplier=ii backoffSchedule=[iims]"
unfolding format_consumer_retry_policy get_retry_backoff_schedule backoffs_from calculate_backoff_ms
a_policy = refl

a_topic :
    build_topic_create_configs ⦃H = calm⦄ (record {
      partitions = double 3;
      replication_factor = double 1;
      retention_ms = double 1;
      cleanup_policy = "delete";
    })
    ≡ "retention.ms=ii" ∷ "cleanup.policy=delete" ∷ []
unfolding build_topic_create_configs
a_topic = refl
