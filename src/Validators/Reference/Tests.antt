-- ===== src/Validators/Reference/Tests.antt =====
-- A Finnish reference number and an RF reference, at which the theorems are applied.
use n8n_production_systems.Validators.Reference.{reference_number, compact, last_char}
use n8n_production_systems.Validators.Reference.Finnish.{
  IsBody, weighted, reference_text, reference_number-passed_iff,
}
use n8n_production_systems.Validators.Reference.Rf.{
  IsPayload, rf_text, rf-passed_iff, reference_number-raises,
}
use n8n_production_systems.Validators.Iban.Checksum.{without_check}
use n8n_production_systems.Validators.Result.{is_pass}
use n8n_production_systems.Text.{Text, CharDb, codes, starts_with}
use n8n_production_systems.Text.Strip.{strip}
use n8n_production_systems.Text.Words.{join_words}
use n8n_production_systems.Text.Shape.{str_all}
use n8n_production_systems.Text.Ascii.{ascii}
use n8n_production_systems.Common.{
  some, ◌++◌, arith, ℕ, List, ◌≡◌, ◌<◌, Bool, ◌∷◌, leb, true, [], raises, value_error, ◌↔◌, ◌&&◌,
  ◌||◌, refl, ◌+◌, ◌*◌, ◌%◌, ◌==◌,
}

-- 1234561
abbrev body : List ℕ
body = 1 ∷ 2 ∷ 3 ∷ 4 ∷ 5 ∷ 6 ∷ []

abbrev mistyped : List ℕ
mistyped = 1 ∷ 2 ∷ 8 ∷ 4 ∷ 5 ∷ 6 ∷ []

abbrev payload : Text
payload = codes "539007547034"

body-IsBody : IsBody body
body-IsBody = (ground arith, omega arith, omega arith)

mistyped-IsBody : IsBody mistyped
mistyped-IsBody = (ground arith, omega arith, omega arith)

payload-IsPayload : IsPayload payload
payload-IsPayload = record { code = ground arith; size = omega arith }

reference_number-passed_iff_example :
    (is_pass (reference_number ascii (some (reference_text body 1))) ≡ true)
    ↔ ((weighted body + 1) % 10 ≡ 0)
reference_number-passed_iff_example =
    reference_number-passed_iff ascii body 1 body-IsBody (omega arith)

passes : is_pass (reference_number ascii (some (reference_text body 1))) ≡ true
unfolding weighted
passes = (reference_number-passed_iff ascii body 1 body-IsBody (omega arith)).1 refl

rf-passed_iff_example :
    (is_pass (reference_number ascii (some (rf_text 18 payload))) ≡ true)
    ↔ ((without_check b'R' b'F' payload * 100 + 18) % 97 ≡ 1)
rf-passed_iff_example = rf-passed_iff ascii 18 payload payload-IsPayload (omega arith)

-- the superscript two, which `isdigit` accepts and `int` does not
abbrev superscript_two : ℕ
superscript_two = 178

abbrev with_superscript : ℕ → Bool
with_superscript c = (leb b'0' c && leb c b'9') || c == superscript_two

with_superscript-decimal : (c d : ℕ) → ascii.decimal c ≡ some d → with_superscript c ≡ true
with_superscript-decimal c d h = ground arith

with_superscript-ascii : (c : ℕ) → c < 128 → with_superscript c ≡ (leb b'0' c && leb c b'9')
with_superscript-ascii c h = ground arith

abbrev latin : CharDb
latin = record ascii {
  is_digit = with_superscript;
  decimal-is_digit = with_superscript-decimal;
  digit_ascii = with_superscript-ascii;
}

abbrev squared : Text
squared = codes "123" ++ superscript_two ∷ []

reference_number-raises_example : reference_number latin (some squared) ≡ raises value_error
unfolding compact strip starts_with join_words str_all last_char
reference_number-raises_example =
    reference_number-raises latin squared superscript_two refl refl refl (omega arith) (omega arith)
      refl refl
