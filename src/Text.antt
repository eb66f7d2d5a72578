-- ===== src/Text.antt =====
-- Python's `str` as a list of code points, and the character tables that its methods read.
-- The tables are those of the Unicode database, which is no part of the repository: a model takes
-- them as `CharDb`, whose laws are what Python documents of them. `Text.Ascii.ascii` meets them.
pub mod Strip
pub mod Words
pub mod Shape
pub mod Ascii
pub mod Show
pub mod Equality
pub mod Contains
pub mod Lines
pub mod Digest
use Prim.Native.Char.{code}
use n8n_production_systems.Common.{
  ℕ, ◌+◌, ◌-◌, ◌≤◌, ◌<◌, String, ◌≡◌, Bool, true, false, ◌&&◌, ◌||◌, Option, none, some, List, [],
  ◌∷◌, map, All, ltb, leb, ◌==◌, if◌then◌else◌,
}

abbrev pub Text : Type 0
Text = List ℕ

-- the code points of a literal
abbrev pub codes : String → Text
codes String.[] = []
codes (String.◌∷◌ c s) = code c ∷ codes s

-- `value or ""`
abbrev pub or_empty : Option Text → Text
or_empty none = []
or_empty (some s) = s

abbrev pub is_empty {ℓ} : {A : Type ℓ} → List A → Bool
is_empty [] = true
is_empty (x ∷ xs) = false

unfoldable pub text_eq : Text → Text → Bool
text_eq [] [] = true
text_eq [] (d ∷ t) = false
text_eq (c ∷ s) [] = false
text_eq (c ∷ s) (d ∷ t) = c == d && text_eq s t

-- `text.startswith(prefix)`
unfoldable pub starts_with : Text → Text → Bool
starts_with [] s = true
starts_with (p ∷ ps) [] = false
starts_with (p ∷ ps) (c ∷ s) = p == c && starts_with ps s

abbrev pub ascii_space : ℕ → Bool
ascii_space c = (leb 9 c && leb c 13) || (leb 28 c && leb c 32)

abbrev pub ascii_decimal : ℕ → Option ℕ
ascii_decimal c = if leb b'0' c && leb c b'9' then some (c - b'0') else none

abbrev pub is_upper_letter : ℕ → Bool
is_upper_letter c = leb b'A' c && leb c b'Z'

abbrev pub is_lower_letter : ℕ → Bool
is_lower_letter c = leb b'a' c && leb c b'z'

abbrev pub ascii_alpha : ℕ → Bool
ascii_alpha c = is_upper_letter c || is_lower_letter c

abbrev pub ascii_upper : ℕ → ℕ
ascii_upper c = if is_lower_letter c then c - 32 else c

abbrev pub ascii_lower : ℕ → ℕ
ascii_lower c = if is_upper_letter c then c + 32 else c

abbrev pub IsAscii : Text → Type 0
IsAscii = All (λ c. c < 128)

-- `decimal` is what `int` makes of a character and `re`'s `\d` accepts; `is_digit`, `is_alpha` and
-- `is_alnum` are the tests of `str` at one character; `upper` and `lower` take a whole text, since
-- they may change its length.
pub record CharDb : Type 0 where
  pub is_space : ℕ → Bool
  pub decimal : ℕ → Option ℕ
  pub is_digit : ℕ → Bool
  pub is_alpha : ℕ → Bool
  pub is_alnum : ℕ → Bool
  pub upper : Text → Text
  pub lower : Text → Text
  pub decimal_range : (c d : ℕ) → decimal c ≡ some d → d < 10
  pub decimal-is_digit : (c d : ℕ) → decimal c ≡ some d → is_digit c ≡ true
  pub space_ascii : (c : ℕ) → c < 128 → is_space c ≡ ascii_space c
  pub decimal_ascii : (c : ℕ) → c < 128 → decimal c ≡ ascii_decimal c
  pub digit_ascii : (c : ℕ) → c < 128 → is_digit c ≡ (leb b'0' c && leb c b'9')
  pub alpha_ascii : (c : ℕ) → c < 128 → is_alpha c ≡ ascii_alpha c
  pub alnum_ascii : (c : ℕ) → c < 128 → is_alnum c ≡ (ascii_alpha c || (leb b'0' c && leb c b'9'))
  pub upper_ascii : (s : Text) → IsAscii s → upper s ≡ map ascii_upper s
  pub lower_ascii : (s : Text) → IsAscii s → lower s ≡ map ascii_lower s

-- every character is ASCII
unfoldable pub all_ascii : Text → Bool
all_ascii [] = true
all_ascii (c ∷ s) = ltb c 128 && all_ascii s
