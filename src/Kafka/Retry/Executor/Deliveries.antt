-- ===== src/Kafka/Retry/Executor/Deliveries.antt =====
-- A message that fails each time it is delivered: how often it comes back.
use eventflow_kafka_microser.Prelude.{
  ◌≡◌, ℕ, suc, List, ◌++◌, ◌∷◌, [], String, ◌≤◌, ◌+◌, ltb, leb, arith, sym, ap, ◌∙◌, true, inl,
  zero, inr, false,
}
use eventflow_kafka_microser.Js.Io.{Io, World}
use eventflow_kafka_microser.Js.Host.{Host, Message, int}
use eventflow_kafka_microser.Js.Errors.{ok, Thrown, err}
use eventflow_kafka_microser.Js.Value.{Value, Fields, end, get, Num, spread}
use eventflow_kafka_microser.Events.Types.{EventType}
use eventflow_kafka_microser.Events.Catalog.{ServiceName}
use eventflow_kafka_microser.Kafka.Publisher.{KafkaEventTransport, dlq_message, event_message}
use eventflow_kafka_microser.Kafka.Retry.{RetryPolicyConfig, should_retry, should_send_to_dlq}
use eventflow_kafka_microser.Kafka.Retry.Executor.{retry, dlq, execute, RetryOutcome, success}
use eventflow_kafka_microser.Kafka.Wire.{
  parse_kafka_headers, resolve_partition_key, get_retry_count, build_retry_headers,
  envelope_to_kafka_headers,
}
use eventflow_kafka_microser.Js.Host.Laws.{WholeNumbers, max_safe_integer}
use eventflow_kafka_microser.Kafka.Publisher.Laws.{Transports}
use eventflow_kafka_microser.Kafka.Publisher.Reliable.{Reliable}
use eventflow_kafka_microser.Events.Topics.{resolve_kafka_topic}
use eventflow_kafka_microser.Kafka.Retry.Executor.Forwards.{next_attempt, Ends, execute-Forwarded}
use eventflow_kafka_microser.Kafka.Publisher.Keys.{map_ok-ok}
use eventflow_kafka_microser.Kafka.Wire.RoundTrip.{
  get_retry_count-text, prop-parse_kafka_headers, retry_count_text,
}
use eventflow_kafka_microser.Js.Io.Returns.{Returns-OnOk}
use eventflow_kafka_microser.Kafka.Retry.Executor.Total.{execute-Returns}

module _ ⦃H : Host⦄ {Db : Type 0} (T : KafkaEventTransport Db) (service : ServiceName)
    (policy : RetryPolicyConfig) (event_type : EventType) (envelope : Value)
    (handler : Io Db (Unit {0})) where
  -- The deliveries of a message whose headers were parsed, each by `execute`: a message that was
  -- published again is the next one that is delivered, with its own headers, and a message whose
  -- failure went to the dead-letter topic is not delivered again.
  pub data Delivered : Fields → World Db → ℕ → World Db → Type 0 where
    last :
        (headers : Fields) (w w' : World Db)
        → execute T service policy event_type envelope headers handler w ≡ (ok dlq, w')
        → Delivered headers w 1 w'
    again :
        (headers : Fields) (w u w' : World Db) (sent : List Message) (m : Message) (n : ℕ)
        → execute T service policy event_type envelope headers handler w ≡ (ok retry, u)
        → u.sent ≡ sent ++ m ∷ []
        → Delivered (parse_kafka_headers m.headers) u n w'
        → Delivered headers w (suc n) w'

  -- The deliveries from here: so many, the last of which put the failure, with the envelope in it, on
  -- the dead-letter topic.
  abbrev pub DeadLettered : Fields → World Db → ℕ → Type 0
  DeadLettered headers w n =
      (w' : World Db) × Delivered headers w n w'
      × (sent : List Message) × (failure : Value) × (w'.sent
          ≡ sent ++ dlq_message event_type failure end ∷ [])
      × (get "originalEnvelope" (get "payload" failure) ≡ envelope)

  module _ (N : WholeNumbers H) (L : Transports T) (Y : Reliable T)
      (throws : (v : World Db) → (e : Thrown) × (u : World Db) × (handler v ≡ (err e, u)))
      (key : String) (keyed : resolve_partition_key envelope ≡ ok key) (max : ℕ)
      (small : max ≤ max_safe_integer) (limit : policy.max_attempts ≡ int max) where
    next_attempt-int :
        (headers : Fields) (c : ℕ)
        → get_retry_count headers ≡ int c
        → c + 1 ≤ max
        → next_attempt event_type envelope headers policy handler ≡ int (c + 1)
    next_attempt-int headers c e h =
        ap (λ x. H.add x (int 1)) e ∙ N.add_int c 1 (omega (arith, small))

    should_retry-int : (c : ℕ) → c ≤ max → should_retry (int c) policy ≡ ltb c max
    unfolding should_retry
    should_retry-int c h = rw limit (N.lt_int c max (omega (arith, small)) small)

    should_send_to_dlq-int : (c : ℕ) → c ≤ max → should_send_to_dlq (int c) policy ≡ leb max c
    unfolding should_send_to_dlq
    should_send_to_dlq-int c h = rw limit (N.le_int max c small (omega (arith, small)))

    message_headers :
        (m : Message) (h : Fields)
        → event_message event_type envelope h ≡ ok m
        → m.headers ≡ spread (envelope_to_kafka_headers envelope) h
    unfolding event_message
    message_headers m h e =
        let (k, r, q) = map_ok-ok _ (resolve_partition_key envelope) e in
        sym (ap (λ x. x.headers) q)

    redelivered_count :
        (m : Message) (n : ℕ) (at : Num)
        → n ≤ max
        → event_message event_type envelope (
            build_retry_headers
              (int n)
              policy.max_attempts
              at
              (resolve_kafka_topic event_type)
              (envelope_to_kafka_headers envelope))
          ≡ ok m
        → get_retry_count (parse_kafka_headers m.headers) ≡ int n
    redelivered_count m n at h e = rw (message_headers m _ e) (
        get_retry_count-text N n _ (omega (arith, small))
          (prop-parse_kafka_headers _ _ _ (retry_count_text envelope _ _ at _)))

    -- One delivery: it returns, and what it has done with the message is known.
    delivery :
        (headers : Fields) (w : World Db)
        → (o : RetryOutcome) × (w' : World Db) × (execute T service policy event_type envelope
              headers handler w
            ≡ (ok o, w'))
          × Ends event_type envelope headers policy handler w o w'
    delivery headers w =
        Returns-OnOk (Ends event_type envelope headers policy handler w) _
          (execute-Returns T Y service policy event_type envelope headers handler key w keyed)
          (execute-Forwarded T L service policy event_type envelope headers handler w)

    deliver_last :
        (c : ℕ) (headers : Fields) (w : World Db)
        → get_retry_count headers ≡ int c
        → c + 1 ≡ max
        → (o : RetryOutcome) (w' : World Db)
        → execute T service policy event_type envelope headers handler w ≡ (ok o, w')
        → Ends event_type envelope headers policy handler w o w'
        → DeadLettered headers w 1
    deliver_last c headers w e s success w' r (v, x, y, h) = let (f, u, q) = throws v in cc
    deliver_last c headers w e s retry w' r (v, x, y, (f, u, at, m, h, ev, b, g, acc)) =
        let stop : ltb (c + 1) max ≡ true =
          sym (should_retry-int (c + 1) (omega arith))
          ∙ ap (λ k. should_retry k policy) (sym (next_attempt-int headers c e (omega arith)))
          ∙ g in
        ground (arith, stop)
    deliver_last c headers w e s dlq w' r (v, x, y, (f, u, fail, h, why, same, acc)) =
        (w', Delivered.last headers w w' r, u.sent, fail, acc.0, same)

    deliver_again :
        (n c : ℕ) (headers : Fields) (w : World Db)
        → ((headers' : Fields) (u : World Db)
            → get_retry_count headers' ≡ int (c + 1)
            → DeadLettered headers' u (suc n))
        → get_retry_count headers ≡ int c
        → c + suc (suc n) ≡ max
        → (o : RetryOutcome) (w' : World Db)
        → execute T service policy event_type envelope headers handler w ≡ (ok o, w')
        → Ends event_type envelope headers policy handler w o w'
        → DeadLettered headers w (suc (suc n))
    deliver_again n c headers w k e s success w' r (v, x, y, h) = let (f, u, q) = throws v in cc
    deliver_again n c headers w k e s retry w' r (v, x, y, (f, u, at, m, h, ev, b, g, acc)) =
        let next = next_attempt-int headers c e (omega arith) in
        let count = redelivered_count m (c + 1) at (omega arith) (rw next at ev) in
        let (z, d, sent, fail, p, q) = k (parse_kafka_headers m.headers) w' count in
        (z, Delivered.again headers w w' z u.sent m (suc n) r acc.0 d, sent, fail, p, q)
    deliver_again n c headers w k e s dlq w' r (v, x, y, (f, u, fail, h, inl b, same, acc)) =
        let stop : leb max (c + 1) ≡ true =
          sym (should_send_to_dlq-int (c + 1) (omega arith))
          ∙ ap (λ k. should_send_to_dlq k policy) (sym (next_attempt-int headers c e (omega arith)))
          ∙ b in
        ground (arith, stop)
    deliver_again n c headers w k e s dlq w' r (v, x, y, (f, u, fail, h, inr b, same, acc)) =
        let go : ltb (c + 1) max ≡ false =
          sym (should_retry-int (c + 1) (omega arith))
          ∙ ap (λ k. should_retry k policy) (sym (next_attempt-int headers c e (omega arith)))
          ∙ b in
        ground (arith, go)

    -- A message whose handler throws at each delivery comes to the dead-letter topic, and does so after
    -- exactly as many deliveries as its policy has attempts left: with c retries counted in its headers
    -- and a policy of c + n + 1 attempts, n deliveries publish it again and the next one puts its
    -- failure, with the envelope in it, on the dead-letter topic. The policy's attempts are a whole
    -- number up to `Number.MAX_SAFE_INTEGER`, the envelope has a partition key, the transport publishes
    -- and keeps its interface, and whole numbers are exact and are read back from their numerals.
    pub execute-DeadLettered :
        (n c : ℕ) (headers : Fields) (w : World Db)
        → get_retry_count headers ≡ int c
        → c + suc n ≡ max
        → DeadLettered headers w (suc n)
    execute-DeadLettered zero c headers w e s =
        let (o, w', r, k) = delivery headers w in deliver_last c headers w e s o w' r k
    execute-DeadLettered (suc n) c headers w e s =
        let (o, w', r, k) = delivery headers w in
        deliver_again n c headers w
          (λ headers' u e'. execute-DeadLettered n (c + 1) headers' u e' (omega arith)) e s o w' r k
