-- ===== src/Js/Io/Laws.antt =====
-- What a run that returns says of its parts.
use eventflow_kafka_microser.Prelude.{
  ◌≡◌, refl, ◌⊎◌, inl, inr, Bool, ◌+◌, if◌then◌else◌, Option, ◌++◌, none, ◌∷◌, ℕ, suc, true, [],
  some, false, subst,
}
use eventflow_kafka_microser.Js.Io.{
  Io, World, ◌>>=◌, attempt, continue, handle, emit_kafka_event, accept, pure, lift, copies,
}
use eventflow_kafka_microser.Js.Errors.{Result, ok, err, Thrown}
use eventflow_kafka_microser.Js.Host.{Message, Host}

module _ {Db A : Type 0} where
  continue-ok :
      {B : Type 0} (r : Result A × World Db) (f : A → Io Db B) {b : B} {w' : World Db}
      → continue r.0 f r.1 ≡ (ok b, w')
      → (a : A) × (v : World Db) × (r ≡ (ok a, v)) × (f a v ≡ (ok b, w'))
  continue-ok (ok a, v) f h = (a, v, refl, h)
  continue-ok (err e, v) f h = cc

  -- If `m >>= f` returns, then `m` does, and `f` goes on from there.
  pub >>=-ok :
      {B : Type 0} (m : Io Db A) (f : A → Io Db B) {b : B} {w w' : World Db}
      → (m >>= f) w ≡ (ok b, w')
      → (a : A) × (v : World Db) × (m w ≡ (ok a, v)) × (f a v ≡ (ok b, w'))
  unfolding ◌>>=◌
  >>=-ok m f {w = w} h = continue-ok (m w) f h

  handle-ok :
      (r : Result A × World Db) (f : Thrown → Io Db A) {a : A} {w' : World Db}
      → handle r.0 f r.1 ≡ (ok a, w')
      → (r ≡ (ok a, w')) ⊎ ((e : Thrown) × (v : World Db) × (r ≡ (err e, v)) × (f e v ≡ (ok a, w')))
  handle-ok (ok a, v) f h = inl h
  handle-ok (err e, v) f h = inr (e, v, refl, h)

  -- If `attempt m f` returns, then `m` does so, or `m` throws and `f` returns.
  pub attempt-ok :
      (m : Io Db A) (f : Thrown → Io Db A) {a : A} {w w' : World Db}
      → attempt m f w ≡ (ok a, w')
      → (m w ≡ (ok a, w'))
        ⊎ ((e : Thrown) × (v : World Db) × (m w ≡ (err e, v)) × (f e v ≡ (ok a, w')))
  unfolding attempt
  attempt-ok m f {w = w} h = handle-ok (m w) f h

module _ {Db A : Type 0} where
  -- A property of a run of a conditional, from one of each branch.
  pub if-run {ℓ} :
      (P : Result A × World Db → Type ℓ) (b : Bool) (x y : Io Db A) (w : World Db)
      → P (x w)
      → P (y w)
      → P ((if b then x else y) w)
  if-run P true x y w h k = h
  if-run P false x y w h k = k

-- The state behind an answer of the client that is an error, with `k` copies appended.
abbrev pub refused_by : {Db : Type 0} → ℕ → Message → World Db → World Db
refused_by k m w = record w { tick = w.tick + 1; log = w.log ++ copies k m }

-- The state behind the client's acknowledgement of a record, with `k` copies more appended.
abbrev pub accepted_by : {Db : Type 0} → ℕ → Message → World Db → World Db
accepted_by k m w = record w {
  tick = w.tick + 1;
  sent = w.sent ++ m ∷ [];
  log = w.log ++ copies (suc k) m;
}

module _ ⦃H : Host⦄ {Db : Type 0} where
  accept-attempt {ℓ} :
      (P : Result (Unit {0}) × World Db → Type ℓ) (m : Message) (f : Thrown → Io Db (Unit {0}))
      (w : World Db) (answer : Option Thrown) (k : ℕ)
      → (answer ≡ none → P (ok tt, accepted_by k m w))
      → ((e : Thrown) → answer ≡ some e → P (f e (refused_by k m w)))
      → P (attempt (accept m answer k) f (record w { tick = w.tick + 1 }))
  unfolding attempt
  accept-attempt P m f w none k h g = h refl
  accept-attempt P m f w (some e) k h g = g e refl

  -- A property of an `emit` with a handler for its error, from one of each answer of the client.
  pub attempt-emit {ℓ} :
      (P : Result (Unit {0}) × World Db → Type ℓ) (m : Message) (f : Thrown → Io Db (Unit {0}))
      (w : World Db)
      → (H.emit_error w.tick m ≡ none → P (ok tt, accepted_by (H.appended w.tick m) m w))
      → ((e : Thrown)
          → H.emit_error w.tick m ≡ some e
          → P (f e (refused_by (H.appended w.tick m) m w)))
      → P (attempt (emit_kafka_event m) f w)
  unfolding attempt emit_kafka_event
  attempt-emit P m f w h k =
      accept-attempt P m f w (H.emit_error w.tick m) (H.appended w.tick m) h k

module _ {Db A : Type 0} where
  pub if_true-run {ℓ} :
      (P : Result A × World Db → Type ℓ) (b : Bool) (x y : Io Db A) (w : World Db)
      → b ≡ true
      → P (x w)
      → P ((if b then x else y) w)
  if_true-run P true x y w e h = h
  if_true-run P false x y w e h = cc

  pub if_false-run {ℓ} :
      (P : Result A × World Db → Type ℓ) (b : Bool) (x y : Io Db A) (w : World Db)
      → b ≡ false
      → P (y w)
      → P ((if b then x else y) w)
  if_false-run P true x y w e h = cc
  if_false-run P false x y w e h = h

-- If the run returned, then its value and its last state are as told.
abbrev pub OnOk {ℓ} : {Db A : Type 0} → (A → World Db → Type ℓ) → Result A × World Db → Type ℓ
OnOk P (ok a, w) = P a w
OnOk P (err e, w) = Unit

module _ {Db A : Type 0} where
  pub OnOk-ok {ℓ} :
      (P : A → World Db → Type ℓ) (r : Result A × World Db) {a : A} {w : World Db}
      → OnOk P r
      → r ≡ (ok a, w)
      → P a w
  OnOk-ok P r h e = subst (OnOk P) e h

  continue-OnOk {ℓ} :
      {B : Type 0} (P : B → World Db → Type ℓ) (r : Result A × World Db) (f : A → Io Db B)
      → ((a : A) (v : World Db) → r ≡ (ok a, v) → OnOk P (f a v))
      → OnOk P (continue r.0 f r.1)
  continue-OnOk P (ok a, v) f k = k a v refl
  continue-OnOk P (err e, v) f k = tt

  pub >>=-OnOk {ℓ} :
      {B : Type 0} (P : B → World Db → Type ℓ) (m : Io Db A) (f : A → Io Db B) (w : World Db)
      → ((a : A) (v : World Db) → m w ≡ (ok a, v) → OnOk P (f a v))
      → OnOk P ((m >>= f) w)
  unfolding ◌>>=◌
  >>=-OnOk P m f w k = continue-OnOk P (m w) f k

  handle-OnOk {ℓ} :
      (P : A → World Db → Type ℓ) (r : Result A × World Db) (f : Thrown → Io Db A)
      → ((a : A) (v : World Db) → r ≡ (ok a, v) → P a v)
      → ((e : Thrown) (v : World Db) → r ≡ (err e, v) → OnOk P (f e v))
      → OnOk P (handle r.0 f r.1)
  handle-OnOk P (ok a, v) f h k = h a v refl
  handle-OnOk P (err e, v) f h k = k e v refl

  pub attempt-OnOk {ℓ} :
      (P : A → World Db → Type ℓ) (m : Io Db A) (f : Thrown → Io Db A) (w : World Db)
      → ((a : A) (v : World Db) → m w ≡ (ok a, v) → P a v)
      → ((e : Thrown) (v : World Db) → m w ≡ (err e, v) → OnOk P (f e v))
      → OnOk P (attempt m f w)
  unfolding attempt
  attempt-OnOk P m f w h k = handle-OnOk P (m w) f h k

  pub if-OnOk {ℓ} :
      (P : A → World Db → Type ℓ) (b : Bool) (x y : Io Db A) (w : World Db)
      → (b ≡ true → OnOk P (x w))
      → (b ≡ false → OnOk P (y w))
      → OnOk P ((if b then x else y) w)
  if-OnOk P true x y w h k = h refl
  if-OnOk P false x y w h k = k refl

  handle_then-OnOk {ℓ} :
      {B : Type 0} (P : B → World Db → Type ℓ) (r : Result A × World Db) (c : B)
      (f : Thrown → Io Db B)
      → ((a : A) (v : World Db) → r ≡ (ok a, v) → P c v)
      → ((e : Thrown) (v : World Db) → r ≡ (err e, v) → OnOk P (f e v))
      → OnOk P (attempt (λ w. continue r.0 (λ _. pure c) r.1) f r.1)
  unfolding attempt
  handle_then-OnOk P (ok a, v) c f h k = h a v refl
  handle_then-OnOk P (err e, v) c f h k = k e v refl

  -- `try { await m; return c } catch (e) { … }`
  pub attempt_then-OnOk {ℓ} :
      {B : Type 0} (P : B → World Db → Type ℓ) (m : Io Db A) (c : B) (f : Thrown → Io Db B)
      (w : World Db)
      → ((a : A) (v : World Db) → m w ≡ (ok a, v) → P c v)
      → ((e : Thrown) (v : World Db) → m w ≡ (err e, v) → OnOk P (f e v))
      → OnOk P (attempt (m >>= λ _. pure c) f w)
  unfolding attempt ◌>>=◌
  attempt_then-OnOk P m c f w h k = handle_then-OnOk P (m w) c f h k

  pub OnOk-map {ℓ κ} :
      (P : A → World Db → Type ℓ) (Q : A → World Db → Type κ) (r : Result A × World Db)
      → ((a : A) (w : World Db) → P a w → Q a w)
      → OnOk P r
      → OnOk Q r
  OnOk-map P Q (ok a, w) f h = f a w h
  OnOk-map P Q (err e, w) f h = tt

  pub OnOk-self {ℓ} :
      (P : A → World Db → Type ℓ) (r : Result A × World Db)
      → ((a : A) (v : World Db) → r ≡ (ok a, v) → P a v)
      → OnOk P r
  OnOk-self P (ok a, v) k = k a v refl
  OnOk-self P (err e, v) k = tt

  -- Nothing was sent, and the store is as before.
  abbrev pub Keeps : World Db → A → World Db → Type 0
  Keeps w a v = (v.sent ≡ w.sent) × (v.db ≡ w.db)

  pub lift-Keeps : (r : Result A) (w : World Db) → OnOk (Keeps w) (lift r w)
  lift-Keeps (ok a) w = (refl, refl)
  lift-Keeps (err e) w = tt

  -- An action that keeps the state, before one of which `P` holds from every state that is kept.
  pub Keeps-OnOk {ℓ} :
      {B : Type 0} (P : B → World Db → Type ℓ) (m : Io Db A) (f : A → Io Db B) (w : World Db)
      → OnOk (Keeps w) (m w)
      → ((a : A) (v : World Db) → Keeps w a v → OnOk P (f a v))
      → OnOk P ((m >>= f) w)
  Keeps-OnOk P m f w h k = >>=-OnOk P m f w (λ a v e. k a v (OnOk-ok (Keeps w) _ h e))
