-- ===== src/Js/Errors.antt =====
-- What the code throws, and code that returns or throws.
use eventflow_kafka_microser.Prelude.{String, ◌≡◌, refl, Bool, true, false, List, ◌⊎◌, inl, inr}
use eventflow_kafka_microser.Js.Value.{Value}

pub data Thrown : Type 0 where
  -- `new Error(message)` and its subclasses, with their `name`
  error : String → String → Thrown
  -- `new EventValidationError(message, details)`
  validation : String → List String → Thrown
  -- a thrown value that is no `Error`
  other : Value → Thrown

pub data Result {ℓ} (A : Type ℓ) : Type ℓ where
  ok : A → Result A
  err : Thrown → Result A

-- Code that goes on with the value, unless it was an error that came back.
module _ {ℓ κ} {A : Type ℓ} {B : Type κ} where
  infixl 5 ◌>>=◌ ◌>>◌
  abbrev pub ◌>>=◌ : Result A → (A → Result B) → Result B
  err thrown >>= next = err thrown
  ok value >>= next = next value

  abbrev pub ◌>>◌ : Result A → Result B → Result B
  first >> second = first >>= λ value. second

  -- What returned in the end came from a value on the way.
  pub >>=-ok_path :
      {b : B} (first : Result A) (next : A → Result B)
      → (first >>= next) ≡ ok b
      → (value : A) × (first ≡ ok value) × (next value ≡ ok b)
  >>=-ok_path (err thrown) next h = cc
  >>=-ok_path (ok value) next h = (value, refl, h)

-- `try { return m } catch (e) { throw f(e) }`
abbrev pub map_error {ℓ} : {A : Type ℓ} → (Thrown → Thrown) → Result A → Result A
map_error f (ok a) = ok a
map_error f (err e) = err (f e)

abbrev pub map_ok {ℓ κ} : {A : Type ℓ} {B : Type κ} → (A → B) → Result A → Result B
map_ok f (ok a) = ok (f a)
map_ok f (err e) = err e

-- `error instanceof EventValidationError`
abbrev pub is_validation : Thrown → Bool
is_validation (validation m ds) = true
is_validation _ = false

pub Result-cases {ℓ} :
    {A : Type ℓ} (r : Result A) → ((a : A) × (r ≡ ok a)) ⊎ ((e : Thrown) × (r ≡ err e))
Result-cases (ok a) = inl (a, refl)
Result-cases (err e) = inr (e, refl)
