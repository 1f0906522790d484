-- ===== src/Js/Host.antt =====
-- What the code takes from its surroundings and does not implement: the floating-point operations,
-- `JSON.parse`, the environment variables, the generators of ids, times and random numbers, and the
-- answers of the Kafka client. Each draw from a generator is told apart by the number of the draw.
pub mod Laws
use eventflow_kafka_microser.Prelude.{
  ℕ, String, Bool, true, false, not, ◌&&◌, Option, List, [], ◌∷◌, concat, join, ◌==◌, if◌then◌else◌,
}
use eventflow_kafka_microser.Js.Value.{
  Num, Value, undefined, null, bool, num, str, buffer, arr, obj, Fields, get,
}
use eventflow_kafka_microser.Js.Errors.{Thrown, error, validation, other, Result, ok, err}

-- One record that is handed to the Kafka client.
pub record Message : Type 0 where
  pub topic : String
  pub key : Value
  pub value : Value
  pub headers : Fields

pub record Host : Type 0 where
  -- `a < b`, `a <= b`, `a === b` on numbers
  pub lt : Num → Num → Bool
  pub le : Num → Num → Bool
  pub eq : Num → Num → Bool
  pub add : Num → Num → Num
  pub sub : Num → Num → Num
  pub mul : Num → Num → Num
  pub pow : Num → Num → Num
  pub abs : Num → Num
  pub floor : Num → ℕ
  pub is_finite : Num → Bool
  -- the numeral m / 10 ^ k of the source
  pub lit : ℕ → ℕ → Num
  -- `Number(text)`, `String(number)`, `String(value)`
  pub parse : String → Num
  pub print : Num → String
  pub show : Value → String
  -- `JSON.parse(text)`, and `error.stack`
  pub parse_json : String → Result Value
  pub stack : Thrown → Value
  -- `process.env[name]`
  pub env : String → Option String
  -- `randomUUID()`, `new Date().toISOString()`, `Date.now()`, `Math.random()`
  pub uuid : ℕ → String
  pub iso : ℕ → String
  pub now : ℕ → Num
  pub random : ℕ → Num
  -- the error with which the client answers an `emit`, if it fails
  pub emit_error : ℕ → Message → Option Thrown
  -- how many copies of the record the broker has appended by that `emit`, beside the one that an
  -- acknowledgement tells of: an `emit` that fails may have appended its record
  pub appended : ℕ → Message → ℕ

module _ ⦃H : Host⦄ where
  -- A whole number of the source.
  abbrev pub int : ℕ → Num
  int n = H.lit n 0

  -- `Number.isNaN(x)`: only NaN differs from itself
  abbrev pub is_nan : Num → Bool
  is_nan x = not (H.eq x x)

  -- a number as a condition
  abbrev pub truthy_num : Num → Bool
  truthy_num x = not (is_nan x) && not (H.eq x (int 0))

  -- `Math.min(a, b)`, NaN where one of them is NaN
  abbrev pub min_num : Num → Num → Num
  min_num a b = if is_nan a then a else if is_nan b then b else if H.lt b a then b else a

  abbrev pub max_num : Num → Num → Num
  max_num a b = if is_nan a then a else if is_nan b then b else if H.lt a b then b else a

  -- a value as a condition, `!!v`
  unfoldable pub truthy : Value → Bool
  truthy undefined = false
  truthy null = false
  truthy (bool b) = b
  truthy (num x) = truthy_num x
  truthy (str s) = not (s == "")
  truthy (buffer s) = true
  truthy (arr xs) = true
  truthy (obj fs) = true

  -- `error.message` of the constructor of `EventValidationError`
  abbrev pub validation_message : String → List String → String
  validation_message m [] = m
  validation_message m ds = concat (m ∷ ": " ∷ join "; " ds ∷ [])

  -- `error instanceof Error ? error.message : String(error)`
  unfoldable pub error_message : Thrown → String
  unfolding concat join
  error_message (error name message) = message
  error_message (validation m ds) = validation_message m ds
  error_message (other v) = H.show v

-- `typeof v === 'object' && v !== null`
abbrev pub is_object : Value → Bool
is_object (buffer s) = true
is_object (arr xs) = true
is_object (obj fs) = true
is_object _ = false

-- `v.k` on any value: null and undefined have no properties.
unfoldable pub read : String → Value → Result Value
unfolding get concat
read k undefined =
    err (
      error "TypeError" (concat ("Cannot read properties of undefined (reading '" ∷ k ∷ "')" ∷ [])))
read k null =
    err (error "TypeError" (concat ("Cannot read properties of null (reading '" ∷ k ∷ "')" ∷ [])))
read k v = ok (get k v)
