-- ===== src/Scripts.antt =====
-- What the checks of scripts/verify-*.mjs have in common: their assertions, and the records that their
-- consumers are handed.
pub mod Flows
pub mod Partitions
pub mod Probes
pub mod Scale
use eventflow_kafka_microser.Prelude.{
  String, Bool, Option, none, some, List, [], ◌∷◌, ℕ, false, true, ◌==◌, if◌then◌else◌, not,
}
use eventflow_kafka_microser.Js.Errors.{Result, ok, err, error, ◌>>=◌, ◌>>◌}
use eventflow_kafka_microser.Js.Value.{Value, undefined, null, bool, str, num}
use eventflow_kafka_microser.Js.Host.{Host, Message}

-- A record as a consumer of the scripts is handed it: its key as text or `undefined`, and what
-- `JSON.parse(message.value.toString())` makes of its value, where it has one.
pub record Delivery : Type 0 where
  pub partition : ℕ
  pub key : Value
  pub body : Option (Result Value)

-- A record that the broker hands on as it was accepted, from a partition of its topic.
abbrev pub delivered : Message → ℕ → Delivery
delivered m partition = record { partition = partition; key = m.key; body = some (ok m.value) }

-- `assert(condition, message)`
unfoldable pub assert : Bool → String → Result (Unit {0})
assert condition message = if condition then ok tt else err (error "Error" message)

-- `a === b` on texts, numbers, Booleans, `null` and `undefined`
unfoldable pub strict_equal : ⦃H : Host⦄ → Value → Value → Bool
strict_equal (str s) (str t) = s == t
strict_equal ⦃H⦄ (num x) (num y) = H.eq x y
strict_equal (bool true) (bool b) = b
strict_equal (bool false) (bool b) = not b
strict_equal undefined undefined = true
strict_equal null null = true
strict_equal a b = false

-- What a wait resolves with.
pub record Awaited : Type 0 where
  pub envelope : Value
  pub key : Value

-- `eachMessage` of a wait: nothing for a record without a value, or of another event type.
unfoldable pub each_message : (Value → Result Bool) → Delivery → Result (Option Awaited)
each_message filter d = elim d.body [
  | none ↦ ok none
  | some parsed ↦ parsed >>= λ envelope. filter envelope >>= λ fits.
      ok (if fits then some (record { envelope = envelope; key = d.key }) else none)
]

-- The wait for the first record that fits, which times out where none comes. The consumer does not
-- come past a record whose handler throws, so the wait times out there too.
unfoldable pub wait_for_message : String → (Value → Result Bool) → List Delivery → Result Awaited
wait_for_message timeout filter [] = err (error "Error" timeout)
wait_for_message timeout filter (d ∷ ds) =
    let rest = wait_for_message timeout filter ds in
    elim (each_message filter d) [
      | ok (some a) ↦ ok a
      | ok none ↦ rest
      | err e ↦ err (error "Error" timeout)
    ]
