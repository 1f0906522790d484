-- ===== src/Examples/Surroundings.antt =====
-- A surrounding in which a number is a whole number, and a numeral is a text of that many letters and
-- one more; the first calls of the client fail, as many as wanted,
-- with the acknowledgement of a record that was appended lost.
use eventflow_kafka_microser.Prelude.{
  ℕ, suc, zero, ◌+◌, ◌-◌, ◌*◌, ◌^◌, ◌≡◌, refl, String, true, false, none, some, leb, ltb, eqb,
  if◌then◌else◌, ◌==◌, arith, ap, ◌∙◌, eq_iff, Bool-cases, inl, sym, inr,
}
use Prim.Native.String
use text.Mathlib.TextLemmas.{length-append}
use eventflow_kafka_microser.Js.Host.{Host}
use eventflow_kafka_microser.Js.Host.Laws.{WholeNumbers}
use eventflow_kafka_microser.Js.Value.{Num, double, undefined}
use eventflow_kafka_microser.Js.Errors.{error, err}

abbrev value_of : Num → ℕ
value_of (double n) = n

abbrev tally : ℕ → String
tally zero = "i"
tally (suc n) = String.◌++◌ "i" (tally n)

abbrev print : Num → String
print (double n) = tally n

abbrev pub surrounding : ℕ → Host
surrounding failing = record {
  lt = λ a b. ltb (value_of a) (value_of b);
  le = λ a b. leb (value_of a) (value_of b);
  eq = λ a b. eqb (value_of a) (value_of b);
  add = λ a b. double (value_of a + value_of b);
  sub = λ a b. double (value_of a - value_of b);
  mul = λ a b. double (value_of a * value_of b);
  pow = λ a b. double (value_of a ^ value_of b);
  abs = λ a. a;
  floor = value_of;
  is_finite = λ a. true;
  lit = λ m k. double m;
  parse = λ s. double (String.count s - 1);
  print = print;
  show = λ v. "value";
  parse_json = λ s. err (error "SyntaxError" s);
  stack = λ e. undefined;
  env = λ name. none;
  uuid = λ n. "4c0f6f0e-9a3b-4d55-8a55-0d8a1b2c3d4e";
  iso = λ n. "2026-01-02T03:04:05.000Z";
  now = λ n. double n;
  random = λ n. double 0;
  appended = λ n m. if ltb n failing then 1 else 0;
  emit_error = λ n m. if ltb n failing then some (error "Error" "broker") else none;
}

count-tally : (n : ℕ) → String.count (tally n) ≡ n + 1
count-tally zero = refl
count-tally (suc n) = length-append "i" (tally n) ∙ omega (arith, count-tally n)

tally_not_empty : (n : ℕ) → (tally n == "") ≡ false
tally_not_empty n = elim (Bool-cases (tally n == "")) [
  | inl h ↦
      let c : n + 1 ≡ 0 = sym (count-tally n) ∙ ap String.count ((eq_iff (tally n) "").0 h) in
      ground arith
  | inr h ↦ h
]

pub surrounding-WholeNumbers : (failing : ℕ) → WholeNumbers (surrounding failing)
surrounding-WholeNumbers failing = record {
  le_int = λ a b h k. refl;
  lt_int = λ a b h k. refl;
  add_int = λ a b h. refl;
  floor_int = λ a h. refl;
  is_finite_int = λ a h. refl;
  parse_print = λ a h. ap double (omega (arith, count-tally a));
  print_not_empty = λ a h. tally_not_empty a;
}
