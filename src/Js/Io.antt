-- ===== src/Js/Io.antt =====
-- Asynchronous code that draws ids, times and random numbers, hands records to the Kafka client,
-- sleeps, writes to the store of its service, and may throw. What was done before a throw stays
-- done, so the state comes back beside the error.
pub mod Laws
pub mod Reads
pub mod Returns
use mathlib.Core.List.{List, [], ◌∷◌, ◌++◌}
use eventflow_kafka_microser.Prelude.{ℕ, zero, suc, ◌+◌, Option, none, some}
use eventflow_kafka_microser.Js.Value.{Num}
use eventflow_kafka_microser.Js.Errors.{Thrown, Result, ok, err}
use eventflow_kafka_microser.Js.Host.{Host, Message}

pub record World (Db : Type 0) : Type 0 where
  -- the records whose `emit` the Kafka client has answered without an error, in order
  pub sent : List Message
  -- the records that the broker has appended, in order, whatever the client answered
  pub log : List Message
  -- the delays that were slept, in milliseconds
  pub slept : List Num
  -- the number of draws and client calls so far
  pub tick : ℕ
  -- the store of the service
  pub db : Db

abbrev pub Io : Type 0 → Type 0 → Type 0
Io Db A = World Db → Result A × World Db

-- as many copies of a record
abbrev pub copies : ℕ → Message → List Message
copies zero m = []
copies (suc k) m = m ∷ copies k m

module _ {Db A : Type 0} where
  abbrev pub pure : A → Io Db A
  pure a w = (ok a, w)

  abbrev pub throw : Thrown → Io Db A
  throw e w = (err e, w)

  -- pure code that may throw
  abbrev pub lift : Result A → Io Db A
  lift r w = (r, w)

  -- `await`: the value of an action that succeeded goes on
  abbrev pub continue : {B : Type 0} → Result A → (A → Io Db B) → Io Db B
  continue (ok a) f w = f a w
  continue (err e) f w = (err e, w)

  -- `try { return await m } catch (e) { return f(e) }`
  abbrev pub handle : Result A → (Thrown → Io Db A) → Io Db A
  handle (ok a) f w = (ok a, w)
  handle (err e) f w = f e w

  unfoldable pub attempt : Io Db A → (Thrown → Io Db A) → Io Db A
  attempt m f w = let (r, w') = m w in handle r f w'

module _ {Db A B : Type 0} where
  infixl 5 ◌>>=◌ ◌>>◌
  unfoldable pub ◌>>=◌ : Io Db A → (A → Io Db B) → Io Db B
  ◌>>=◌ m f w = let (r, w') = m w in continue r f w'

  abbrev pub ◌>>◌ : Io Db A → Io Db B → Io Db B
  m >> n = m >>= λ _. n

module _ {Db : Type 0} where
  -- the store
  abbrev pub gets : {A : Type 0} → (Db → A) → Io Db A
  gets f w = (ok (f w.db), w)

  abbrev pub modify : (Db → Db) → Io Db (Unit {0})
  modify f w = (ok tt, record w { db = f w.db })

  -- `await sleep(ms)`
  unfoldable pub sleep : Num → Io Db (Unit {0})
  sleep ms w = (ok tt, record w { slept = w.slept ++ ms ∷ [] })

  -- one more draw from a generator
  unfoldable pub draw : {A : Type 0} → (ℕ → A) → Io Db A
  draw f w = (ok (f w.tick), record w { tick = w.tick + 1 })

  -- The client answers that the record was appended, or with an error, behind which the record may
  -- have been appended all the same; `k` counts the copies beside the acknowledged one.
  abbrev pub accept : Message → Option Thrown → ℕ → Io Db (Unit {0})
  accept m none k w = (ok tt, record w { sent = w.sent ++ m ∷ []; log = w.log ++ copies (suc k) m })
  accept m (some e) k w = (err e, record w { log = w.log ++ copies k m })

  -- `emitKafkaEvent`
  unfoldable pub emit_kafka_event : ⦃H : Host⦄ → Message → Io Db (Unit {0})
  emit_kafka_event ⦃H⦄ m w =
      accept m (H.emit_error w.tick m) (H.appended w.tick m) (record w { tick = w.tick + 1 })
