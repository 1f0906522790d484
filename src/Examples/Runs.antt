-- ===== src/Examples/Runs.antt =====
-- The services and their retries at concrete messages, orders and states.
use eventflow_kafka_microser.Prelude.{
  ◌≡◌, refl, some, ◌∷◌, [], ℕ, false, ◌↔◌, arith, String, Bool, ◌==◌,
}
use eventflow_kafka_microser.Js.Io.{World, throw, emit_kafka_event}
use eventflow_kafka_microser.Js.Errors.{ok, error}
use eventflow_kafka_microser.Js.Value.{
  Value, double, str, num, obj, arr, cons, nil, field, end, spread, get, prop, Fields,
}
use eventflow_kafka_microser.Examples.Surroundings.{surrounding, surrounding-WholeNumbers}
use eventflow_kafka_microser.Kafka.Publisher.{
  event_publisher, KafkaEventTransport, event_message, dlq_message, order_event_publisher,
}
use eventflow_kafka_microser.Payment.Idempotency.{
  ProcessedEvent, ProcessedEventRepository, ProcessedEventOutcome,
}
use eventflow_kafka_microser.Payment.Consumer.Redelivery.{handle_order_events-redelivered}
use eventflow_kafka_microser.Payment.Consumer.{handle_order_events, accept_order}
use eventflow_kafka_microser.Kafka.Retry.Executor.{success, execute}
use eventflow_kafka_microser.Payment.Consumer.{Ack}
use eventflow_kafka_microser.Js.Host.{Host, Message}
use eventflow_kafka_microser.Payment.Order.{OrderCreated, as_order_created, order_created_payload}
use eventflow_kafka_microser.Kafka.Retry.{RetryPolicyConfig}
use eventflow_kafka_microser.Orders.Service.{create_order}
use eventflow_kafka_microser.Js.Io.Laws.{OnOk}
use eventflow_kafka_microser.Kafka.Producer.Exhausted.{
  Exhausts, publish_with_producer_retry-Exhausts,
}
use eventflow_kafka_microser.Kafka.Producer.Laws.{
  AtLeastOnce, publish_with_producer_retry-AtLeastOnce,
}
use eventflow_kafka_microser.Kafka.Wire.{
  get_retry_count, parse_kafka_headers, resolve_partition_key, envelope_to_kafka_headers,
  get_partition_key_from_payload, get_retry_at,
}
use eventflow_kafka_microser.Dlq.Coverage.{is_subscribed, is_subscribed-dlq_message}
use eventflow_kafka_microser.Payment.Rules.{evaluate_payment_rules, resolve_payment_business_rules}
use eventflow_kafka_microser.Events.Types.{
  order_created, event_name, payment_processed, payment_failed,
}
use eventflow_kafka_microser.Events.Topics.{resolve_kafka_topic}
use eventflow_kafka_microser.Kafka.Publisher.Laws.{
  Transports, event_publisher-Transports, order_event_publisher-Transports,
}
use eventflow_kafka_microser.Payment.Service.Laws.{Processed, process_payment-Processed}
use eventflow_kafka_microser.Kafka.Retry.Executor.Forwards.{Ends, execute-Forwarded}
use eventflow_kafka_microser.Orders.Service.Laws.{Created, create_order-PublishedOrder}
use eventflow_kafka_microser.Kafka.Producer.{publish_with_producer_retry}
use eventflow_kafka_microser.Payment.Service.{process_payment}
use eventflow_kafka_microser.Kafka.Wire.RoundTrip.{
  retry_message_headers, get_retry_count-parse_kafka_headers, as_delivered,
}
use eventflow_kafka_microser.Payment.Rules.Laws.{IsPermitted, evaluate_payment_rules-nil_iff}
use eventflow_kafka_microser.Events.Catalog.{payment_service}
use eventflow_kafka_microser.Kafka.Consume.{
  parse_order_events_message, parse_payment_processed_message, parse_payment_failed_message,
  accepted, Parsed, deserialize_and_extract, deserialize_kafka_payload,
}
use eventflow_kafka_microser.Js.Text.{trim, trim_start, trim_end, is_empty}
use eventflow_kafka_microser.Events.Validate.{payment_processed_fields, payment_failed_fields}
use eventflow_kafka_microser.Examples.Messages.{
  order_message, find_in, table, start, consumed, calm, T0, start_0, order_event, three_attempts,
  two_items, orders, record_of_order, paid, keyed_record, table-FindsSaved,
}

consumed-success : consumed ≡ (ok (Ack.handled success), consumed.1)
unfolding eventflow_kafka_microser.Js.Io.attempt eventflow_kafka_microser.Js.Io.◌>>=◌
    eventflow_kafka_microser.Js.Io.sleep eventflow_kafka_microser.Js.Io.draw
    eventflow_kafka_microser.Js.Io.emit_kafka_event eventflow_kafka_microser.Js.Text.is_space
    eventflow_kafka_microser.Js.Text.trim_start eventflow_kafka_microser.Js.Text.is_empty
    eventflow_kafka_microser.Js.Text.trim_end eventflow_kafka_microser.Js.Text.trim
    eventflow_kafka_microser.Js.Text.not_blank eventflow_kafka_microser.Js.Text.matches
    eventflow_kafka_microser.Js.Value.prop eventflow_kafka_microser.Js.Value.has
    eventflow_kafka_microser.Js.Value.put eventflow_kafka_microser.Js.Value.spread
    eventflow_kafka_microser.Js.Value.get eventflow_kafka_microser.Js.Value.items_list
    eventflow_kafka_microser.Js.Value.items_of eventflow_kafka_microser.Js.Host.truthy
    eventflow_kafka_microser.Js.Host.error_message eventflow_kafka_microser.Js.Host.read
    eventflow_kafka_microser.Events.Types.event_name
    eventflow_kafka_microser.Events.Types.same_event
    eventflow_kafka_microser.Events.Types.is_core_system_event
    eventflow_kafka_microser.Events.Topics.resolve_kafka_topic
    eventflow_kafka_microser.Events.Topics.to_dlq_topic
    eventflow_kafka_microser.Events.Topics.all_kafka_topics
    eventflow_kafka_microser.Events.Topics.all_dlq_topics
    eventflow_kafka_microser.Events.Envelope.envelope_object
    eventflow_kafka_microser.Events.Envelope.create_event_envelope
    eventflow_kafka_microser.Events.Envelope.event_params
    eventflow_kafka_microser.Events.Envelope.is_text
    eventflow_kafka_microser.Events.Envelope.is_event_type
    eventflow_kafka_microser.Events.Envelope.is_order_created_event
    eventflow_kafka_microser.Events.Envelope.is_payment_processed_event
    eventflow_kafka_microser.Events.Envelope.is_payment_failed_event
    eventflow_kafka_microser.Events.Validate.is_uuid_text
    eventflow_kafka_microser.Events.Validate.is_iso_text
    eventflow_kafka_microser.Events.Validate.is_non_empty_string
    eventflow_kafka_microser.Events.Validate.is_uuid
    eventflow_kafka_microser.Events.Validate.is_iso_timestamp
    eventflow_kafka_microser.Events.Validate.event_type_errors
    eventflow_kafka_microser.Events.Validate.bad_causation
    eventflow_kafka_microser.Events.Validate.envelope_checks
    eventflow_kafka_microser.Events.Validate.envelope_errors
    eventflow_kafka_microser.Events.Validate.validate_event_envelope
    eventflow_kafka_microser.Events.Validate.required_errors
    eventflow_kafka_microser.Events.Validate.validate_payment_processed_payload
    eventflow_kafka_microser.Events.Validate.validate_payment_failed_payload
    eventflow_kafka_microser.Events.Validate.is_positive_number
    eventflow_kafka_microser.Events.Validate.order_item_checks
    eventflow_kafka_microser.Events.Validate.validate_order_item
    eventflow_kafka_microser.Events.Validate.order_items_errors
    eventflow_kafka_microser.Events.Validate.items_errors
    eventflow_kafka_microser.Events.Validate.order_created_checks
    eventflow_kafka_microser.Events.Validate.order_created_errors
    eventflow_kafka_microser.Events.Validate.validate_order_created_payload
    eventflow_kafka_microser.Kafka.Consume.same_text
    eventflow_kafka_microser.Kafka.Consume.deserialize_kafka_payload
    eventflow_kafka_microser.Kafka.Consume.extract_envelope
    eventflow_kafka_microser.Kafka.Consume.deserialize_and_extract
    eventflow_kafka_microser.Kafka.Consume.validated
    eventflow_kafka_microser.Kafka.Consume.parse_order_events_message
    eventflow_kafka_microser.Kafka.Consume.parse_payment_processed_message
    eventflow_kafka_microser.Kafka.Consume.parse_payment_failed_message
    eventflow_kafka_microser.Kafka.Wire.envelope_to_kafka_headers
    eventflow_kafka_microser.Kafka.Wire.get_partition_key_from_payload
    eventflow_kafka_microser.Kafka.Wire.resolve_partition_key
    eventflow_kafka_microser.Kafka.Wire.parse_kafka_headers
    eventflow_kafka_microser.Kafka.Wire.get_retry_count
    eventflow_kafka_microser.Kafka.Wire.get_retry_at
    eventflow_kafka_microser.Kafka.Wire.build_retry_headers
    eventflow_kafka_microser.Kafka.Wire.merge_envelope_and_retry_headers
    eventflow_kafka_microser.Kafka.Retry.resolve_retry_number
    eventflow_kafka_microser.Kafka.Retry.resolve_retry_policy
    eventflow_kafka_microser.Kafka.Retry.resolve_consumer_retry_policy
    eventflow_kafka_microser.Kafka.Retry.resolve_producer_retry_policy
    eventflow_kafka_microser.Kafka.Retry.calculate_backoff_ms
    eventflow_kafka_microser.Kafka.Retry.should_retry
    eventflow_kafka_microser.Kafka.Retry.should_send_to_dlq
    eventflow_kafka_microser.Kafka.Retry.backoffs_from
    eventflow_kafka_microser.Kafka.Retry.get_retry_backoff_schedule
    eventflow_kafka_microser.Kafka.Retry.Executor.schedule_retry
    eventflow_kafka_microser.Kafka.Retry.Executor.send_to_dlq
    eventflow_kafka_microser.Kafka.Retry.Executor.on_failure
    eventflow_kafka_microser.Kafka.Retry.Executor.execute
    eventflow_kafka_microser.Kafka.Publisher.event_message
    eventflow_kafka_microser.Kafka.Publisher.dlq_message
    eventflow_kafka_microser.Kafka.Publisher.publish
    eventflow_kafka_microser.Kafka.Publisher.publish_to_dlq
    eventflow_kafka_microser.Kafka.Publisher.publish_with_retry
    eventflow_kafka_microser.Kafka.Publisher.publish_to_dlq_with_retry
    eventflow_kafka_microser.Payment.Order.order_item
    eventflow_kafka_microser.Payment.Order.order_created_payload
    eventflow_kafka_microser.Payment.Order.as_order_created
    eventflow_kafka_microser.Payment.Rules.resolve_payment_business_rules
    eventflow_kafka_microser.Payment.Rules.sum_from
    eventflow_kafka_microser.Payment.Rules.sum_line_items
    eventflow_kafka_microser.Payment.Rules.item_violations
    eventflow_kafka_microser.Payment.Rules.evaluate_payment_rules
    eventflow_kafka_microser.Payment.Rules.format_rule_violations
    eventflow_kafka_microser.Payment.Simulator.resolve_payment_failure_rate
    eventflow_kafka_microser.Payment.Simulator.is_payment_force_failure_enabled
    eventflow_kafka_microser.Payment.Simulator.timeout_delay
    eventflow_kafka_microser.Payment.Simulator.failure_of
    eventflow_kafka_microser.Payment.Simulator.pick_simulated_failure
    eventflow_kafka_microser.Payment.Simulator.simulate_payment_gateway
    eventflow_kafka_microser.Payment.Idempotency.is_inbound_event_processed
    eventflow_kafka_microser.Payment.Idempotency.has_approved_payment_for_order
    eventflow_kafka_microser.Payment.Idempotency.check
    eventflow_kafka_microser.Payment.Idempotency.check_order_created
    eventflow_kafka_microser.Payment.Idempotency.record_processed
    eventflow_kafka_microser.Payment.Service.publish_payment_requested
    eventflow_kafka_microser.Payment.Service.publish_payment_processed
    eventflow_kafka_microser.Payment.Service.publish_payment_failed
    eventflow_kafka_microser.Payment.Service.fail_payment
    eventflow_kafka_microser.Payment.Service.approve_payment
    eventflow_kafka_microser.Payment.Service.process_payment
    eventflow_kafka_microser.Payment.Service.handle_order_created
    eventflow_kafka_microser.Payment.Service.handle_order_cancelled
    eventflow_kafka_microser.Payment.Consumer.run
    eventflow_kafka_microser.Payment.Consumer.accept_order
    eventflow_kafka_microser.Payment.Consumer.handle_order_events
    eventflow_kafka_microser.Payment.Consumer.handle_order_cancelled_event
consumed-success = refl

handle_order_events-redelivered_example :
    handle_order_events ⦃H = calm⦄ T0 table order_message end consumed.1
    ≡ (ok Ack.duplicate, consumed.1)
handle_order_events-redelivered_example =
    handle_order_events-redelivered ⦃H = calm⦄ T0 table (event_publisher-Transports ⦃H = calm⦄)
      table-FindsSaved order_message end end (start []) consumed.1 consumed-success

process_payment-Processed_example :
    OnOk
      (Processed ⦃H = calm⦄ T0 (event_publisher-Transports ⦃H = calm⦄) table order_event (start []))
      (process_payment ⦃H = calm⦄ T0 table order_event (start []))
process_payment-Processed_example =
    process_payment-Processed ⦃H = calm⦄ T0 (event_publisher-Transports ⦃H = calm⦄) table
      order_event (start [])

execute-Forwarded_example :
    OnOk
      (Ends ⦃H = calm⦄ order_created order_message end three_attempts
        (throw (error "Error" "down"))
        start_0)
      (execute ⦃H = calm⦄ T0 payment_service three_attempts order_created order_message end
        (throw (error "Error" "down"))
        start_0)
execute-Forwarded_example =
    execute-Forwarded ⦃H = calm⦄ T0 (event_publisher-Transports ⦃H = calm⦄) payment_service
      three_attempts order_created order_message end (throw (error "Error" "down")) start_0

create_order-PublishedOrder_example :
    OnOk
      (Created ⦃H = calm⦄ T0 (event_publisher-Transports ⦃H = calm⦄) orders two_items start_0)
      (create_order ⦃H = calm⦄ T0 orders two_items start_0)
create_order-PublishedOrder_example =
    create_order-PublishedOrder ⦃H = calm⦄ T0 (event_publisher-Transports ⦃H = calm⦄) orders
      two_items start_0

publish_with_producer_retry-Exhausts_example :
    Exhausts ⦃H = surrounding 5⦄ three_attempts record_of_order 3 start_0 (
      publish_with_producer_retry ⦃H = surrounding 5⦄ three_attempts
        (emit_kafka_event ⦃H = surrounding 5⦄ record_of_order)
        start_0)
publish_with_producer_retry-Exhausts_example =
    publish_with_producer_retry-Exhausts ⦃H = surrounding 5⦄ three_attempts record_of_order
      (surrounding-WholeNumbers 5) 2 start_0 refl (omega arith)

publish_with_producer_retry-AtLeastOnce_example :
    AtLeastOnce ⦃H = surrounding 2⦄ record_of_order start_0 (
      publish_with_producer_retry ⦃H = surrounding 2⦄ three_attempts
        (emit_kafka_event ⦃H = surrounding 2⦄ record_of_order)
        start_0)
publish_with_producer_retry-AtLeastOnce_example =
    publish_with_producer_retry-AtLeastOnce ⦃H = surrounding 2⦄ three_attempts record_of_order
      start_0

-- The count arrives as a buffer, and the time as a text.
abbrev as_buffer : String → Bool
as_buffer k = k == "x-retry-count"

abbrev retry_headers : Fields
retry_headers = as_delivered as_buffer (
    retry_message_headers ⦃H = calm⦄ order_message (double 2) (double 3) (double 50) "order.events")

get_retry_count-parse_kafka_headers_example :
    (get_retry_count ⦃H = calm⦄ (parse_kafka_headers retry_headers) ≡ double 2)
    × (get_retry_at ⦃H = calm⦄ (parse_kafka_headers retry_headers) ≡ some (double 50))
get_retry_count-parse_kafka_headers_example =
    get_retry_count-parse_kafka_headers ⦃H = calm⦄ (surrounding-WholeNumbers 0) order_message 2 50
      (double 3) "order.events" as_buffer (omega arith) (omega arith)

is_subscribed-dlq_message_example :
    is_subscribed ((dlq_message ⦃H = calm⦄ order_created order_message end).topic) ≡ false
is_subscribed-dlq_message_example =
    is_subscribed-dlq_message ⦃H = calm⦄ order_created order_message end

evaluate_payment_rules-nil_iff_example :
    (evaluate_payment_rules ⦃H = calm⦄ order_event.payload
        (resolve_payment_business_rules ⦃H = calm⦄)
      ≡ [])
    ↔ IsPermitted ⦃H = calm⦄ order_event.payload (resolve_payment_business_rules ⦃H = calm⦄)
evaluate_payment_rules-nil_iff_example =
    evaluate_payment_rules-nil_iff ⦃H = calm⦄ order_event.payload
      (resolve_payment_business_rules ⦃H = calm⦄)

paid-found : find_in (paid ∷ []) order_event.event_id ≡ some paid
unfolding as_order_created order_created_payload get prop
paid-found = refl

keyed : event_message ⦃H = calm⦄ order_created order_message end ≡ ok keyed_record
unfolding event_message resolve_partition_key resolve_kafka_topic get_partition_key_from_payload get
    prop
keyed = refl

order_event_publisher-Transports_example :
    Transports ⦃H = calm⦄ {Db = ℕ} (order_event_publisher ⦃H = calm⦄)
order_event_publisher-Transports_example = order_event_publisher-Transports ⦃H = calm⦄ {Db = ℕ}
