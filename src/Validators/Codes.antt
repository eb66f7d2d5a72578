-- ===== src/Validators/Codes.antt =====
-- Texts of digits and capital letters, which the validators leave as they are before they look.
use n8n_production_systems.Text.{CharDb, Text, IsAscii, ascii_upper}
use n8n_production_systems.Common.{
  ℕ, List, All, ◌≡◌, ◌≤◌, ◌<◌, false, map, arith, ◌⊎◌, ◌∷◌, ap, [], inl, ◌∙◌, refl,
}
use n8n_production_systems.Text.Shape.{AreDigits, digit_char}
use n8n_production_systems.Text.Strip.{strip, Solid, strip-Solid}
use n8n_production_systems.Text.Words.{join_words, join_words-Solid}

-- A digit or a capital letter.
abbrev pub IsCode : ℕ → Type 0
IsCode c = ((b'0' ≤ c) × (c ≤ b'9')) ⊎ ((b'A' ≤ c) × (c ≤ b'Z'))

ascii_code : (c : ℕ) → IsCode c → c < 128
ascii_code c h = ground arith

module _ (db : CharDb) where
  code-solid : (c : ℕ) → IsCode c → db.is_space c ≡ false
  code-solid c h = ground (arith, db.space_ascii c)

  pub codes-Solid : (s : Text) → All IsCode s → Solid db s
  codes-Solid [] h = tt
  codes-Solid (c ∷ s) h = (code-solid c h.0, codes-Solid s h.1)

codes-IsAscii : (s : Text) → All IsCode s → IsAscii s
codes-IsAscii [] h = tt
codes-IsAscii (c ∷ s) h = (ascii_code c h.0, codes-IsAscii s h.1)

upper_codes : (s : Text) → All IsCode s → map ascii_upper s ≡ s
upper_codes [] h = refl
upper_codes (c ∷ s) h = ground (arith, upper_codes s h.1)

pub map-IsCode : (ds : List ℕ) → AreDigits ds → All IsCode (map digit_char ds)
map-IsCode [] h = tt
map-IsCode (d ∷ ds) h = (inl (omega arith), map-IsCode ds h.1)

module _ (db : CharDb) where
  pub strip_codes : (s : Text) → All IsCode s → strip db s ≡ s
  strip_codes s h = strip-Solid db s (codes-Solid db s h)

  -- `"".join(value.split()).upper()` leaves such a text alone.
  pub normal_codes : (s : Text) → All IsCode s → db.upper (join_words db s) ≡ s
  normal_codes s h =
      ap db.upper (join_words-Solid db s (codes-Solid db s h))
      ∙ db.upper_ascii s (codes-IsAscii s h)
      ∙ upper_codes s h
