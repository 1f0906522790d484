-- ===== src/Js/Text/Blank.antt =====
-- A text that fits a pattern whose first character is no white space is not blank.
use Prim.Native.Char.{Char, code}
use eventflow_kafka_microser.Prelude.{
  ℕ, String, ◌≡◌, Bool, true, false, List, ◌∷◌, arith, ◌==◌, Bool-cases, inl, sym, ◌∙◌, ap, eq_iff,
  inr,
}
use eventflow_kafka_microser.Js.Text.{
  is_space, is_empty, trim_start, trim_end, trim, not_blank, matches, is_hex, is_digit,
}

pub trim_end-cons :
    (c : Char) (s : String)
    → is_space (code c) ≡ false
    → trim_end (String.◌∷◌ c s) ≡ String.◌∷◌ c (trim_end s)
unfolding trim_end
trim_end-cons c s h = rw h

pub not_blank-cons :
    (c : Char) (s : String) → is_space (code c) ≡ false → not_blank (String.◌∷◌ c s) ≡ true
unfolding not_blank trim trim_start is_empty
not_blank-cons c s h = rw (h, trim_end-cons c s h)

pub matches-not_blank :
    (p : ℕ → Bool) (ps : List (ℕ → Bool)) (s : String)
    → ((c : ℕ) → p c ≡ true → is_space c ≡ false)
    → matches (p ∷ ps) s ≡ true
    → not_blank s ≡ true
unfolding matches
matches-not_blank p ps String.[] h m = cc
matches-not_blank p ps (String.◌∷◌ c s) h m = not_blank-cons c s (h (code c) (ground arith))

pub is_digit-not_space : (c : ℕ) → is_digit c ≡ true → is_space c ≡ false
unfolding is_space
is_digit-not_space c h = ground arith

pub is_hex-not_space : (c : ℕ) → is_hex c ≡ true → is_space c ≡ false
unfolding is_space
is_hex-not_space c h = ground arith

pub not_blank-not_empty : (s : String) → not_blank s ≡ true → (s == "") ≡ false
unfolding not_blank trim trim_start trim_end is_empty
not_blank-not_empty s h = elim (Bool-cases (s == "")) [
  | inl e ↦ let k : true ≡ false = sym h ∙ ap not_blank ((eq_iff s "").0 e) in cc
  | inr e ↦ e
]
