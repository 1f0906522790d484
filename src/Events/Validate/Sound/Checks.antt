-- ===== src/Events/Validate/Sound/Checks.antt =====
-- The list of messages is empty exactly when every check passes; a text that fits one of the two
-- regular expressions is not blank.
use eventflow_kafka_microser.Prelude.{
  ℕ, String, ◌≡◌, ◌↔◌, refl, Bool, true, false, List, [], ◌∷◌, arith, ◌||◌,
}
use eventflow_kafka_microser.Js.Text.{not_blank, matches, is_hex, is_digit}
use eventflow_kafka_microser.Js.Text.Blank.{matches-not_blank, is_hex-not_space, is_digit-not_space}
use eventflow_kafka_microser.Js.Errors.{ok}
use eventflow_kafka_microser.Events.Validate.{
  check, throw_all, is_uuid_text, is_iso_text, iso_seconds, uuid_pattern, iso_end,
}

pub check-nil : (b : Bool) (m : String) → (check b m ≡ []) ↔ (b ≡ false)
check-nil b m = ground arith

pub throw_all-ok : (m : String) (es : List String) → (throw_all m es ≡ ok tt) ↔ (es ≡ [])
throw_all-ok m [] = (λ h. refl, λ h. refl)
throw_all-ok m (e ∷ es) = ground arith

abbrev rest : List (ℕ → Bool) → List (ℕ → Bool)
rest [] = []
rest (p ∷ ps) = ps

pub uuid-not_blank : (s : String) → is_uuid_text s ≡ true → not_blank s ≡ true
unfolding is_uuid_text
uuid-not_blank s h = matches-not_blank is_hex (rest uuid_pattern) s is_hex-not_space h

-- One of the four forms of a timestamp.
iso_form-not_blank :
    (n : ℕ) (s : String) → matches (iso_seconds (iso_end n)) s ≡ true → not_blank s ≡ true
iso_form-not_blank n s =
    matches-not_blank is_digit (rest (iso_seconds (iso_end n))) s is_digit-not_space

||-elim {κ} : {P : Type κ} (a b : Bool) → (a ≡ true → P) → (b ≡ true → P) → (a || b) ≡ true → P
||-elim true b f g h = f refl
||-elim false b f g h = g h

pub iso-not_blank : (s : String) → is_iso_text s ≡ true → not_blank s ≡ true
unfolding is_iso_text
iso-not_blank s h =
    let form = λ (n : ℕ). iso_form-not_blank n s in
    ||-elim _ _ (||-elim _ _ (||-elim _ _ (form 0) (form 1)) (form 2)) (form 3) h
