-- ===== src/Kafka/Wire/RoundTrip.antt =====
-- The retry headers, from the publisher of a retry to the consumer of its message.
use eventflow_kafka_microser.Prelude.{ℕ, String, ◌≡◌, refl, ◌≤◌, some, arith, Bool, true}
use eventflow_kafka_microser.Js.Host.{Host, int}
use eventflow_kafka_microser.Js.Host.Laws.{WholeNumbers, max_safe_integer}
use eventflow_kafka_microser.Js.Value.{
  Value, Fields, Num, prop, str, spread, field, buffer, put, end,
}
use eventflow_kafka_microser.Kafka.Wire.{
  parse_kafka_headers, envelope_to_kafka_headers, build_retry_headers, retry_count_header,
  retry_at_header, get_retry_count, get_retry_at,
}

parsed_header-prop :
    (k j s : String) (v : Value) (fs : Fields)
    → prop k (field j v fs) ≡ str s
    → (prop k fs ≡ str s → prop k (parse_kafka_headers fs) ≡ str s)
    → prop k (parse_kafka_headers (field j v fs)) ≡ str s
unfolding prop parse_kafka_headers
parsed_header-prop k j s (str t) fs e h = ground arith
parsed_header-prop k j s (buffer t) fs e h = ground arith
parsed_header-prop k j s v fs e h = ground arith

-- A header that is a text is kept by `parseKafkaHeaders`.
pub prop-parse_kafka_headers :
    (k s : String) (fs : Fields) → prop k fs ≡ str s → prop k (parse_kafka_headers fs) ≡ str s
unfolding prop parse_kafka_headers
prop-parse_kafka_headers k s end e = e
prop-parse_kafka_headers k s (field j v fs) e =
    parsed_header-prop k j s v fs e (prop-parse_kafka_headers k s fs)

-- A text that arrives as a buffer of its UTF-8, or as it is.
abbrev as_delivered_value : Bool → Value → Value
as_delivered_value true (str s) = buffer s
as_delivered_value _ v = v

-- Headers as the Kafka client hands them to a consumer; it is told which of them arrive as buffers.
abbrev pub as_delivered : (String → Bool) → Fields → Fields
as_delivered is_buffer end = end
as_delivered is_buffer (field k v fs) =
    field k (as_delivered_value (is_buffer k) v) (as_delivered is_buffer fs)

parsed-as_delivered_value :
    (b : Bool) (k : String) (v : Value) (fs gs : Fields)
    → parse_kafka_headers gs ≡ parse_kafka_headers fs
    → parse_kafka_headers (field k (as_delivered_value b v) gs) ≡ parse_kafka_headers (field k v fs)
unfolding parse_kafka_headers
parsed-as_delivered_value true k (str s) fs gs e = rw e refl
parsed-as_delivered_value b k v fs gs e = rw e refl

-- `parseKafkaHeaders` reads buffers as the texts that they hold.
parse_kafka_headers-as_delivered :
    (is_buffer : String → Bool) (fs : Fields)
    → parse_kafka_headers (as_delivered is_buffer fs) ≡ parse_kafka_headers fs
parse_kafka_headers-as_delivered b end = refl
parse_kafka_headers-as_delivered b (field k v fs) =
    parsed-as_delivered_value (b k) k v fs (as_delivered b fs)
      (parse_kafka_headers-as_delivered b fs)

module _ ⦃H : Host⦄ where
  -- The headers of a message that schedules a retry.
  abbrev pub retry_message_headers : Value → Num → Num → Num → String → Fields
  retry_message_headers envelope count max_attempts retry_at topic =
      spread (envelope_to_kafka_headers envelope)
        (build_retry_headers count max_attempts retry_at topic (envelope_to_kafka_headers envelope))

  pub retry_count_text :
      (envelope : Value) (count max_attempts retry_at : Num) (topic : String)
      → prop retry_count_header (retry_message_headers envelope count max_attempts retry_at topic)
        ≡ str (H.print count)
  unfolding prop spread envelope_to_kafka_headers build_retry_headers put
  retry_count_text envelope c m t o = ground arith

  retry_at_text :
      (envelope : Value) (count max_attempts retry_at : Num) (topic : String)
      → prop retry_at_header (retry_message_headers envelope count max_attempts retry_at topic)
        ≡ str (H.print retry_at)
  unfolding prop spread envelope_to_kafka_headers build_retry_headers put
  retry_at_text envelope c m t o = ground arith

  pub get_retry_count-text :
      (N : WholeNumbers H) (n : ℕ) (headers : Fields)
      → n ≤ max_safe_integer
      → prop retry_count_header headers ≡ str (H.print (int n))
      → get_retry_count headers ≡ int n
  unfolding get_retry_count
  get_retry_count-text N n headers s e =
      rw (e, N.print_not_empty n s, N.parse_print n s, N.is_finite_int n s) refl

  get_retry_at-text :
      (N : WholeNumbers H) (n : ℕ) (headers : Fields)
      → n ≤ max_safe_integer
      → prop retry_at_header headers ≡ str (H.print (int n))
      → get_retry_at headers ≡ some (int n)
  unfolding get_retry_at
  get_retry_at-text N n headers s e =
      rw (e, N.print_not_empty n s, N.parse_print n s, N.is_finite_int n s) refl

  -- The consumer of a message that schedules a retry reads the count and the time that the producer
  -- put into its headers, for a count and a time that are whole numbers up to
  -- `Number.MAX_SAFE_INTEGER`, whatever the envelope's own headers hold, and whichever of the headers
  -- arrive as buffers in place of texts.
  pub get_retry_count-parse_kafka_headers :
      (N : WholeNumbers H) (envelope : Value) (n t : ℕ) (max_attempts : Num) (topic : String)
      (is_buffer : String → Bool)
      → n ≤ max_safe_integer
      → t ≤ max_safe_integer
      → (get_retry_count (
            parse_kafka_headers (
              as_delivered is_buffer
                (retry_message_headers envelope (int n) max_attempts (int t) topic)))
          ≡ int n)
        × (get_retry_at (
              parse_kafka_headers (
                as_delivered is_buffer
                  (retry_message_headers envelope (int n) max_attempts (int t) topic)))
            ≡ some (int t))
  get_retry_count-parse_kafka_headers N envelope n t m o b s u =
      rw (parse_kafka_headers-as_delivered b (retry_message_headers envelope (int n) m (int t) o)) (
        get_retry_count-text N n _ s
            (prop-parse_kafka_headers _ _ _ (retry_count_text envelope _ m _ o)),
        get_retry_at-text N t _ u (prop-parse_kafka_headers _ _ _ (retry_at_text envelope _ m _ o)),
      )
