-- ===== src/Lib.antt =====
-- EventFlow: five services that carry an order through Kafka, and the library that they share.
--
-- The order-service stores an order and publishes `order.created`; the payment-service consumes it,
-- checks its rules, asks a simulated gateway and publishes `payment.requested` and then
-- `payment.processed` or `payment.failed`; the stock-service answers `payment.processed` with
-- `stock.reserved`, the notification-service answers that with `notification.sent`, and the
-- order-service projects the last events onto the status of the order. A handler that throws is tried
-- again through Kafka, with its count in the headers, and in the end its message goes to a dead-letter
-- topic, which the dlq-service reads.
--
-- Prelude: library names passed on, Boolean tests, lists over the native numbers.
-- Js: the language. Value (values of type unknown), Text (trim, character tests), Errors (what is
--   thrown), Host (what the code takes from its surroundings: floating-point operations, JSON.parse,
--   the environment, generators, the answers of the Kafka client), Io (asynchronous code as state
--   passing: records that the client has acknowledged, records that the broker has appended, delays
--   slept, draws, the store of the service). An `emit` that fails may have appended its record, as often
--   as the parameter `appended` says; where a theorem speaks of what was published, sent or accepted, it
--   speaks of the acknowledged records. Js/Host/Laws states
--   what is documented of whole numbers up to Number.MAX_SAFE_INTEGER; Js/Io/Laws has the rules for
--   runs that return.
-- Events: shared/src/events. Types (event-types.ts, core-events.ts), Topics (domain-topics.ts,
--   kafka-topics.ts, resolve-kafka-topic.ts), Catalog (event-catalog.ts and the topic lists of
--   shared/src/kafka/topic-config.ts), Envelope (envelope.ts, create-envelope.ts), Failure
--   (event-failure.ts), Payloads (payloads/*.ts, event-map.ts), Validate (the three validate-*.ts),
--   with Validate/Sound and Validate/Orders for what the validators accept and Payloads/Asserted for
--   the types that they assert.
-- Kafka: shared/src/kafka. Config (kafka-brokers.ts, consumer-groups.ts, consumer-config.ts,
--   kafka-config.ts, resolveKafkaTopicConfig of topic-config.ts), Consume
--   (deserialize-kafka-payload.ts, envelope-kafka.ts, consume-order-events.ts,
--   consume-payment-events.ts), Wire (headers and partition keys), Retry (retry/retry-policy.ts,
--   producer-retry-policy.ts), Retry/Executor (retry/kafka-retry.executor.ts; Executor/Deliveries
--   has the deliveries of one message, each of which runs the executor), Producer
--   (publishWithProducerRetry), Publisher (services/*/src/kafka/event-publisher.service.ts).
--   Publisher/Laws has the interface Transports, what clients rely on in a publisher;
--   Publisher/Reliable has the interface of one whose publications return.
-- Payment: services/payment-service/src. Order (the typed view of an accepted envelope), Rules,
--   Simulator, Idempotency, Service, Consumer, Logs (the texts of payment-logs.ts).
-- Orders: services/order-service/src. Service (orders.service.ts and the entities), Consumer.
-- Stock, Notification, Dlq: the services and consumers of the other three services. Stock/Total,
--   Notification/Total and Orders/Consumer/Total say when a message is answered with success, and
--   Dlq/Recorded reads what the retry executor sends.
-- Saga: how the services meet. Typed has the types of what they publish. Envelopes, Payments, Orders
--   and Stock take what one service publishes through the pipeline, or the whole consumer, of the
--   next; Completion goes on through all the services, from a payment to the status of its order,
--   and Journey from the request of an order; Subscriptions has the patterns of the consumers and
--   the catalog's routes, services/*/src/events/events.controller.ts.
-- Scripts: scripts/. Flows (verify-order-kafka-flow.mjs, verify-payment-full-flow.mjs), Partitions and
--   Probes (verify-kafka-partitions.mjs) and Scale (verify-payment-consumer-scale.mjs), over the records
--   that their consumers are handed and the answers of the broker; Scale/Rounds and Partitions/Found
--   say when these checks find no fault, and Flows/Services puts what the services publish under their
--   checks.
-- Examples: a concrete surrounding, and the properties at concrete messages.
--
-- Bounds and fuel: the two loops of the retry policy run on fuel, `floor(maxAttempts)` for
-- `getRetryBackoffSchedule` and one more for `publishWithProducerRetry`, which are as many rounds as the
-- loops have, since they count by one from 1. The loop of
-- verify-payment-consumer-scale.mjs runs on fuel that is an argument; eight rounds are enough, as many as
-- 15 seconds have with two seconds between them. Numbers are doubles whose
-- operations are parameters.
--
-- Not modelled: the calls of the loggers, class-validator's checks of a request, the wiring of Nest, the
-- transport of KafkaJS itself, and failures of a database read; of the scripts, the probe of the
-- distribution of keys, the reading of a consumer group through podman, and what is printed. A write may
-- be refused at any call. What a property of the text `x-retry-count` says holds for the numerals that
-- the surroundings print and read back.
pub mod Prelude
pub mod Js
pub mod Events
pub mod Kafka
pub mod Payment
pub mod Orders
pub mod Stock
pub mod Notification
pub mod Dlq
pub mod Saga
pub mod Scripts
pub mod Examples
