-- ===== src/Js/Io/Returns.antt =====
-- Runs that return.
use eventflow_kafka_microser.Prelude.{refl, ◌≡◌, Bool, true, false, if◌then◌else◌, ◌≡◌}
use eventflow_kafka_microser.Js.Io.{Io, World, ◌>>=◌, attempt, continue, handle, pure}
use eventflow_kafka_microser.Js.Errors.{Result, ok, err, Thrown}
use eventflow_kafka_microser.Js.Io.Laws.{OnOk}

-- The run returned a value.
abbrev pub Returns : {Db A : Type 0} → Result A × World Db → Type 0
Returns (ok a, w) = Unit
Returns (err e, w) = ⊥

module _ {Db A : Type 0} where
  continue-Returns :
      {B : Type 0} (r : Result A × World Db) (f : A → Io Db B)
      → Returns r
      → ((a : A) (v : World Db) → Returns (f a v))
      → Returns (continue r.0 f r.1)
  continue-Returns (ok a, v) f h k = k a v
  continue-Returns (err e, v) f h k = h

  pub >>=-Returns :
      {B : Type 0} (m : Io Db A) (f : A → Io Db B) (w : World Db)
      → Returns (m w)
      → ((a : A) (v : World Db) → Returns (f a v))
      → Returns ((m >>= f) w)
  unfolding ◌>>=◌
  >>=-Returns m f w h k = continue-Returns (m w) f h k

  continue-Returns_known :
      {B : Type 0} (Q : A → World Db → Type 0) (r : Result A × World Db) (f : A → Io Db B)
      → Returns r
      → OnOk Q r
      → ((a : A) (v : World Db) → Q a v → Returns (f a v))
      → Returns (continue r.0 f r.1)
  continue-Returns_known Q (ok a, v) f h q k = k a v q
  continue-Returns_known Q (err e, v) f h q k = h

  -- The second action returns because of what the first has done.
  pub >>=-Returns_known :
      {B : Type 0} (Q : A → World Db → Type 0) (m : Io Db A) (f : A → Io Db B) (w : World Db)
      → Returns (m w)
      → OnOk Q (m w)
      → ((a : A) (v : World Db) → Q a v → Returns (f a v))
      → Returns ((m >>= f) w)
  unfolding ◌>>=◌
  >>=-Returns_known Q m f w h q k = continue-Returns_known Q (m w) f h q k

  handle-Returns :
      (r : Result A × World Db) (f : Thrown → Io Db A)
      → ((e : Thrown) (v : World Db) → Returns (f e v))
      → Returns (handle r.0 f r.1)
  handle-Returns (ok a, v) f k = tt
  handle-Returns (err e, v) f k = k e v

  -- A `try` returns if its `catch` block does.
  pub attempt-Returns :
      (m : Io Db A) (f : Thrown → Io Db A) (w : World Db)
      → ((e : Thrown) (v : World Db) → Returns (f e v))
      → Returns (attempt m f w)
  unfolding attempt
  attempt-Returns m f w k = handle-Returns (m w) f k

  pub if-Returns :
      (b : Bool) (x y : Io Db A) (w : World Db)
      → Returns (x w)
      → Returns (y w)
      → Returns ((if b then x else y) w)
  if-Returns true x y w h k = h
  if-Returns false x y w h k = k

  handle-returned :
      (r : Result A × World Db) (f : Thrown → Io Db A) → Returns r → Returns (handle r.0 f r.1)
  handle-returned (ok a, v) f h = tt
  handle-returned (err e, v) f h = elim h [ ]

  -- So does one whose body returns.
  pub attempt-returned :
      (m : Io Db A) (f : Thrown → Io Db A) (w : World Db) → Returns (m w) → Returns (attempt m f w)
  unfolding attempt
  attempt-returned m f w h = handle-returned (m w) f h

-- A run that returns, with what is known of it if it does.
pub Returns-OnOk {ℓ} :
    {Db A : Type 0} (P : A → World Db → Type ℓ) (r : Result A × World Db)
    → Returns r
    → OnOk P r
    → (a : A) × (w : World Db) × (r ≡ (ok a, w)) × P a w
Returns-OnOk P (ok a, w) h p = (a, w, refl, p)
Returns-OnOk P (err e, w) h p = elim h [ ]

-- The run threw, and its last state is as told.
abbrev pub Throws : {Db A : Type 0} → (World Db → Type 0) → Result A × World Db → Type 0
Throws P (ok a, w) = ⊥
Throws P (err e, w) = P w

module _ {Db A B : Type 0} where
  continue-Throws :
      (Q : A → World Db → Type 0) (P : World Db → Type 0) (r : Result A × World Db)
      (f : A → Io Db B)
      → Returns r
      → OnOk Q r
      → ((a : A) (v : World Db) → Q a v → Throws P (f a v))
      → Throws P (continue r.0 f r.1)
  continue-Throws Q P (ok a, v) f h q k = k a v q
  continue-Throws Q P (err e, v) f h q k = elim h [ ]

  -- An action that returns, before one that throws.
  pub >>=-Throws :
      (Q : A → World Db → Type 0) (P : World Db → Type 0) (m : Io Db A) (f : A → Io Db B)
      (w : World Db)
      → Returns (m w)
      → OnOk Q (m w)
      → ((a : A) (v : World Db) → Q a v → Throws P (f a v))
      → Throws P ((m >>= f) w)
  unfolding ◌>>=◌
  >>=-Throws Q P m f w h q k = continue-Throws Q P (m w) f h q k

module _ {Db A : Type 0} where
  -- An action that returned, and what is made of its value.
  pub >>=-pure :
      {B : Type 0} (m : Io Db A) (f : A → B) (a : A) (w w' : World Db)
      → m w ≡ (ok a, w')
      → (m >>= λ x. pure (f x)) w ≡ (ok (f a), w')
  unfolding ◌>>=◌
  >>=-pure m f a w w' e = rw e refl
