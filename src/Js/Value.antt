-- ===== src/Js/Value.antt =====
-- JavaScript values of type `unknown`: what `JSON.parse` and the Kafka client hand to the code,
-- and the objects that the code builds. A property that is absent reads as `undefined`.
use eventflow_kafka_microser.Prelude.{
  ℕ, String, ◌≡◌, refl, Bool, true, false, List, [], ◌∷◌, arith, ◌==◌, eq_iff, if◌then◌else◌,
}

-- A number of the language: the pattern of its 64 bits. Its operations are those of `Host`.
pub data Num : Type 0 where
  double : ℕ → Num

mutual
  pub data Value : Type 0 where
    undefined : Value
    bool : Bool → Value
    str : String → Value
    num : Num → Value
    obj : Fields → Value
    arr : Items → Value
    -- A `Buffer`, by the text that `toString('utf8')` reads from it.
    buffer : String → Value
    null : Value

  -- The properties of an object, in order.
  pub data Fields : Type 0 where
    field : String → Value → Fields → Fields
    end : Fields

  -- The elements of an array.
  pub data Items : Type 0 where
    cons : Value → Items → Items
    nil : Items

-- `o[k]` on the properties of an object.
unfoldable pub prop : String → Fields → Value
prop k end = undefined
prop k (field j v fs) = if j == k then v else prop k fs

-- `k in o`
unfoldable pub has : String → Fields → Bool
has k end = false
has k (field j v fs) = if j == k then true else has k fs

-- `o[k] = v`: an existing property keeps its place.
unfoldable pub put : String → Value → Fields → Fields
put k v end = field k v end
put k v (field j w fs) = if j == k then field k v fs else field j w (put k v fs)

-- `{ ...a, ...b }`: the properties of `b` are written over those of `a`.
unfoldable pub spread : Fields → Fields → Fields
unfolding put
spread a end = a
spread a (field k v b) = spread (put k v a) b

-- `v.k` where `v` is an object; the properties of other values are not read by the code.
unfoldable pub get : String → Value → Value
unfolding prop
get k (obj fs) = prop k fs
get k _ = undefined

-- `items[0] … items[n - 1]`
unfoldable pub items_list : Items → List Value
items_list nil = []
items_list (cons v vs) = v ∷ items_list vs

unfoldable pub items_of : List Value → Items
items_of [] = nil
items_of (v ∷ vs) = cons v (items_of vs)

pub prop-put :
    (k j : String) (v : Value) (fs : Fields)
    → prop j (put k v fs) ≡ (if k == j then v else prop j fs)
unfolding prop put
prop-put k j v end = refl
prop-put k j v (field i w fs) =
    ground (arith, eq_iff k j, eq_iff i k, eq_iff i j, prop-put k j v fs)

pub items_list-of : (vs : List Value) → items_list (items_of vs) ≡ vs
unfolding items_list items_of
items_list-of [] = refl
items_list-of (v ∷ vs) = ground (arith, items_list-of vs)
