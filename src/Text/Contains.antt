-- ===== src/Text/Contains.antt =====
-- `in` of a text in a list of texts and of a text in a text, and letters under `re.I`.
use n8n_production_systems.Text.{Text, text_eq, is_empty, starts_with}
use n8n_production_systems.Common.{ℕ, ◌+◌, Bool, false, ◌&&◌, ◌||◌, ◌==◌, leb, List, [], ◌∷◌}

unfoldable pub is_member : Text → List Text → Bool
is_member s [] = false
is_member s (t ∷ ts) = text_eq s t || is_member s ts

-- marker in blob
unfoldable pub is_in : Text → Text → Bool
is_in marker [] = is_empty marker
is_in marker (c ∷ s) = starts_with marker (c ∷ s) || is_in marker s

-- The characters beyond ASCII that `re.I` takes for a small letter: the dotted capital and the
-- dotless small i for an i, the Kelvin sign for a k, the long s for an s.
abbrev pub odd_case : ℕ → ℕ → Bool
odd_case p c =
    (p == b'i' && (c == 0x130 || c == 0x131))
    || (p == b'k' && c == 0x212a)
    || (p == b's' && c == 0x17f)

-- A letter of a pattern, in lower case, against a character under `re.I`.
abbrev pub letter_eq : ℕ → ℕ → Bool
letter_eq p c = p == c || (leb b'a' p && leb p b'z' && c + 32 == p) || odd_case p c
