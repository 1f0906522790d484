-- ===== src/Scripts/Partitions.antt =====
-- scripts/verify-kafka-partitions.mjs: the check of the records of `POST /orders`. The sizes that the
-- environment gives are whole numbers.
pub mod Found
pub mod Placed
pub mod Spread
use eventflow_kafka_microser.Prelude.{
  ℕ, String, Bool, Option, none, some, List, [], ◌∷◌, ◌++◌, ◌==◌, eqb, leb, ltb, length, map,
  concat, if◌then◌else◌, ◌+◌, true, false, any,
}
use eventflow_kafka_microser.Js.Errors.{Result, ok, err, error, ◌>>=◌, ◌>>◌}
use eventflow_kafka_microser.Js.Value.{Value, str, get, undefined}
use eventflow_kafka_microser.Js.Host.{Host, int}
use eventflow_kafka_microser.Scripts.{Delivery, assert, strict_equal}
use eventflow_kafka_microser.Scripts.Flows.{is_order_created}

-- What the check keeps of a record.
pub record Seen : Type 0 where
  pub partition : ℕ
  pub key : Option String
  pub order_id : Value
  pub event_id : Value

-- `message.key?.toString()`
abbrev pub key_text : Value → Option String
key_text (str s) = some s
key_text v = none

-- One more record of a partition, in a `Map` in the order of insertion.
unfoldable pub counted : ℕ → List (ℕ × ℕ) → List (ℕ × ℕ)
counted p [] = (p, 1) ∷ []
counted p ((q, n) ∷ counts) = if eqb q p then (q, n + 1) ∷ counts else (q, n) ∷ counted p counts

unfoldable pub spread_from : List (ℕ × ℕ) → List ℕ → List (ℕ × ℕ)
spread_from counts [] = counts
spread_from counts (p ∷ ps) = spread_from (counted p counts) ps

-- `partitionSpread`, by the partitions of the records
unfoldable pub partition_spread : List ℕ → List (ℕ × ℕ)
partition_spread ps = spread_from [] ps

abbrev pub same_key : Option String → Option String → Bool
same_key none none = true
same_key (some a) (some b) = a == b
same_key a b = false

-- `keyToPartition.get(key)`
unfoldable pub find_place : Option String → List (Option String × ℕ) → Option ℕ
find_place k [] = none
find_place k ((j, p) ∷ known) = if same_key j k then some p else find_place k known

module _ ⦃H : Host⦄ where
  abbrev key_name : Option String → String
  key_name none = "undefined"
  key_name (some k) = k

  abbrev number : ℕ → String
  number n = H.print (int n)

  -- `eachMessage`: a record that is no JSON is passed over, as is one of another event type.
  unfoldable pub see : Delivery → Result (Option Seen)
  see d = elim d.body [
    | none ↦ ok none
    | some parsed ↦ elim parsed [
      | err e ↦ ok none
      | ok envelope ↦ is_order_created envelope >>= λ fits. ok (
          if fits
          then some (record {
            partition = d.partition;
            key = key_text d.key;
            order_id = get "orderId" (get "payload" envelope);
            event_id = get "eventId" envelope;
          })
          else none)
    ]
  ]

  abbrev timed_out : ℕ → List Seen → Result (List Seen)
  timed_out batch seen = err (
      error "Error" (
        concat (
          "Timed out: got "
          ∷ number (length seen)
          ∷ "/"
          ∷ number batch
          ∷ " messages on order.events"
          ∷ [])))

  -- `messagesPromise`: the records are gathered until there are as many as orders. The consumer does
  -- not come past a record whose handler throws.
  unfoldable pub gather : ℕ → List Seen → List Delivery → Result (List Seen)
  gather batch seen [] = timed_out batch seen
  gather batch seen (d ∷ ds) = elim (see d) [
    | err e ↦ timed_out batch seen
    | ok none ↦ gather batch seen ds
    | ok (some s) ↦
        if leb batch (length (seen ++ s ∷ []))
        then ok (seen ++ s ∷ [])
        else gather batch (seen ++ s ∷ []) ds
  ]

  -- The assertions on one record, whose key is the id of one of the orders.
  unfoldable pub check_message : List String → ℕ → Seen → Result (Unit {0})
  check_message order_ids partitions m = do
    assert
        (elim m.key [
          | none ↦ strict_equal undefined m.order_id
          | some k ↦ strict_equal (str k) m.order_id
        ])
        (concat (
          "Partition key must be orderId (got key="
          ∷ key_name m.key
          ∷ " orderId="
          ∷ H.show m.order_id
          ∷ ")"
          ∷ []))
    assert (any (λ id. strict_equal (str id) m.order_id) order_ids)
        (concat ("Unexpected orderId " ∷ H.show m.order_id ∷ []))
    assert (ltb m.partition partitions) (
        concat (
          "Invalid partition "
          ∷ number m.partition
          ∷ " for topic with "
          ∷ number partitions
          ∷ " partitions"
          ∷ []))

  unfoldable pub check_messages : List String → ℕ → List Seen → Result (Unit {0})
  check_messages order_ids partitions [] = ok tt
  check_messages order_ids partitions (m ∷ ms) =
      check_message order_ids partitions m >> check_messages order_ids partitions ms

  unfoldable pub check_spread : ℕ → ℕ → List Seen → Result (Unit {0})
  check_spread batch partitions ms =
      let spread = length (partition_spread (map (λ m. m.partition) ms)) in
      if leb partitions batch
      then assert (leb 2 spread) (
          concat (
            "Expected load across multiple partitions (got "
            ∷ number spread
            ∷ "). Restart payment consumers after altering partitions."
            ∷ []))
      else ok tt

  -- The last loop, by what `keyToPartition` holds.
  unfoldable pub check_keys : List (Option String × ℕ) → List Seen → Result (Unit {0})
  check_keys known [] = ok tt
  check_keys known (m ∷ ms) = elim (find_place m.key known) [
    | none ↦ check_keys ((m.key, m.partition) ∷ known) ms
    | some previous ↦
        assert (eqb previous m.partition) (
          concat (
            "Key "
            ∷ key_name m.key
            ∷ " jumped partition "
            ∷ number previous
            ∷ " → "
            ∷ number m.partition
            ∷ []))
        >> check_keys known ms
  ]

  unfoldable pub check_flow : ℕ → ℕ → List String → List Seen → Result (Unit {0})
  check_flow batch partitions order_ids ms = do
    assert (eqb (length ms) batch) (concat ("Expected " ∷ number batch ∷ " messages" ∷ []))
    check_messages order_ids partitions ms
    check_spread batch partitions ms
    check_keys [] ms

  -- The check, from the records that are handed over.
  unfoldable pub verify_partitions : ℕ → ℕ → List String → List Delivery → Result (Unit {0})
  verify_partitions batch partitions order_ids deliveries = do
    ms ← gather batch [] deliveries
    check_flow batch partitions order_ids ms
