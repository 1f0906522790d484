-- ===== src/Js/Text/Trim.antt =====
-- `trim` leaves nothing more to trim.
use Prim.Native.Char.{Char, code}
use eventflow_kafka_microser.Prelude.{◌≡◌, refl, String, false, Bool-cases, inl, inr, ◌⊎◌, ◌&&◌}
use eventflow_kafka_microser.Js.Text.{trim, trim_start, trim_end, is_empty, is_space}
use eventflow_kafka_microser.Js.Text.Blank.{trim_end-cons}

trim_end-twice : (s : String) → trim_end (trim_end s) ≡ trim_end s
unfolding trim_end is_empty
trim_end-twice String.[] = refl
trim_end-twice (String.◌∷◌ c s) = elim (Bool-cases (is_space (code c) && is_empty (trim_end s))) [
  | inl h ↦ rw h refl
  | inr h ↦ rw h (rw (trim_end-twice s, h) refl)
]

trim_start-cases :
    (s : String)
    → (trim_start s ≡ "")
      ⊎ ((c : Char) × (t : String) × (trim_start s ≡ String.◌∷◌ c t) × (is_space (code c) ≡ false))
unfolding trim_start
trim_start-cases String.[] = inl refl
trim_start-cases (String.◌∷◌ c s) = elim (Bool-cases (is_space (code c))) [
  | inl h ↦ rw h (trim_start-cases s)
  | inr h ↦ rw h (inr (c, s, refl, h))
]

pub trim-twice : (s : String) → trim (trim s) ≡ trim s
unfolding trim trim_start trim_end
trim-twice s = elim (trim_start-cases s) [
  | inl h ↦ rw h refl
  | inr (c, t, e, h) ↦
      rw e (
        rw (trim_end-cons c t h)
          (rw h (rw (trim_end-cons c (trim_end t) h, trim_end-twice t) refl)))
]
