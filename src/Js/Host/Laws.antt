-- ===== src/Js/Host/Laws.antt =====
-- Documented behaviour of the language's numbers: whole numbers up to
-- `Number.MAX_SAFE_INTEGER` are exact, and their numerals are read back.
use eventflow_kafka_microser.Prelude.{
  ℕ, ◌≡◌, ◌≤◌, ◌+◌, ◌==◌, leb, ltb, true, false, eqb, ◌*◌, ◌^◌, ◌-◌, if◌then◌else◌, arith,
}
use eventflow_kafka_microser.Js.Host.{Host, int, min_num, max_num}

abbrev pub max_safe_integer : ℕ
max_safe_integer = 9007199254740991

pub record WholeNumbers (H : Host) : Type 0 where
  pub le_int :
      (a b : ℕ)
      → a ≤ max_safe_integer
      → b ≤ max_safe_integer
      → H.le (H.lit a 0) (H.lit b 0) ≡ leb a b
  pub lt_int :
      (a b : ℕ)
      → a ≤ max_safe_integer
      → b ≤ max_safe_integer
      → H.lt (H.lit a 0) (H.lit b 0) ≡ ltb a b
  pub add_int :
      (a b : ℕ) → a + b ≤ max_safe_integer → H.add (H.lit a 0) (H.lit b 0) ≡ H.lit (a + b) 0
  pub floor_int : (a : ℕ) → a ≤ max_safe_integer → H.floor (H.lit a 0) ≡ a
  pub is_finite_int : (a : ℕ) → a ≤ max_safe_integer → H.is_finite (H.lit a 0) ≡ true
  pub parse_print : (a : ℕ) → a ≤ max_safe_integer → H.parse (H.print (H.lit a 0)) ≡ H.lit a 0
  pub print_not_empty : (a : ℕ) → a ≤ max_safe_integer → (H.print (H.lit a 0) == "") ≡ false

-- The operations on whole numbers are exact where the result is such a number too.
pub record WholeArithmetic (H : Host) : Type 0 where
  pub eq_int :
      (a b : ℕ)
      → a ≤ max_safe_integer
      → b ≤ max_safe_integer
      → H.eq (H.lit a 0) (H.lit b 0) ≡ eqb a b
  pub sub_int :
      (a b : ℕ) → a ≤ max_safe_integer → b ≤ a → H.sub (H.lit a 0) (H.lit b 0) ≡ H.lit (a - b) 0
  pub mul_int :
      (a b : ℕ) → a * b ≤ max_safe_integer → H.mul (H.lit a 0) (H.lit b 0) ≡ H.lit (a * b) 0
  pub pow_int :
      (a b : ℕ) → a ^ b ≤ max_safe_integer → H.pow (H.lit a 0) (H.lit b 0) ≡ H.lit (a ^ b) 0

module _ ⦃H : Host⦄ (N : WholeNumbers H) (A : WholeArithmetic H) where
  -- `Math.min` and `Math.max` of whole numbers
  pub min_num-int :
      (a b : ℕ)
      → a ≤ max_safe_integer
      → b ≤ max_safe_integer
      → min_num (int a) (int b) ≡ int (if ltb b a then b else a)
  min_num-int a b h k = rw (A.eq_int a a h h, A.eq_int b b k k, N.lt_int b a k h) (ground arith)

  pub max_num-int :
      (a b : ℕ)
      → a ≤ max_safe_integer
      → b ≤ max_safe_integer
      → max_num (int a) (int b) ≡ int (if ltb a b then b else a)
  max_num-int a b h k = rw (A.eq_int a a h h, A.eq_int b b k k, N.lt_int a b h k) (ground arith)
