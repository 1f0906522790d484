-- ===== src/Js/Io/Reads.antt =====
-- Pure code that may throw, before one that goes on with what it found.
use eventflow_kafka_microser.Prelude.{◌≡◌, refl, String, true}
use eventflow_kafka_microser.Js.Io.{Io, World, ◌>>=◌, lift}
use eventflow_kafka_microser.Js.Io.Laws.{OnOk}
use eventflow_kafka_microser.Js.Host.{read, is_object}
use eventflow_kafka_microser.Js.Errors.{Result, ok, err}
use eventflow_kafka_microser.Js.Value.{Value, undefined, null, get}
use eventflow_kafka_microser.Js.Io.Returns.{Returns}

module _ {Db A : Type 0} (P : A → World Db → Type 0) where
  pub lift-OnOk :
      {B : Type 0} (r : Result B) (f : B → Io Db A) (w : World Db)
      → ((b : B) → r ≡ ok b → OnOk P (f b w))
      → OnOk P ((lift r >>= f) w)
  unfolding ◌>>=◌
  lift-OnOk (ok b) f w h = h b refl
  lift-OnOk (err e) f w h = tt

  -- A property that was read is the property.
  pub read-OnOk :
      (k : String) (v : Value) (f : Value → Io Db A) (w : World Db)
      → OnOk P (f (get k v) w)
      → OnOk P ((lift (read k v) >>= f) w)
  unfolding ◌>>=◌ read
  read-OnOk k undefined f w h = tt
  read-OnOk k null f w h = tt
  read-OnOk k v f w h = h

-- A property of an object can be read.
pub read-Returns :
    {Db A : Type 0} (k : String) (v : Value) (f : Value → Io Db A) (w : World Db)
    → is_object v ≡ true
    → Returns (f (get k v) w)
    → Returns ((lift (read k v) >>= f) w)
unfolding ◌>>=◌ read
read-Returns k undefined f w h r = cc
read-Returns k null f w h r = cc
read-Returns k v f w h r = r
