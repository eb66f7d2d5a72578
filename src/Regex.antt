-- ===== src/Regex.antt =====
-- Regular expressions of `re`, as far as the workflow scripts use them: a pattern is a list of
-- alternatives, each a row of items. A text matches where some way to divide it matches, which is
-- what the search of `re` with its backtracking decides.
use n8n_production_systems.Text.{Text, CharDb, codes, is_lower_letter, is_upper_letter}
use n8n_production_systems.Text.Contains.{letter_eq}
use n8n_production_systems.Common.{
  ℕ, zero, suc, Bool, true, false, not, ◌&&◌, ◌||◌, ◌==◌, leb, List, [], ◌∷◌, ◌++◌, map, String,
  if◌then◌else◌,
}

abbrev pub Class : Type 0
Class = ℕ → Bool

-- a character of a class, any number of them, at most so many of them, `\b`, and the end
pub data Item : Type 0 where
  one : Class → Item
  many : Class → Item
  up_to : ℕ → Class → Item
  boundary : Item
  the_end : Item

abbrev pub Pattern : Type 0
Pattern = List (List Item)

-- a literal, and one under re.I in small letters
abbrev pub literal : String → List Item
literal s = map (λ p. one (λ c. p == c)) (codes s)

abbrev pub literal_i : String → List Item
literal_i s = map (λ p. one (letter_eq p)) (codes s)

-- `{n}`, `{n,}` and `+` behind a class
abbrev pub times : ℕ → Class → List Item
times zero p = []
times (suc n) p = one p ∷ times n p

abbrev pub at_least : ℕ → Class → List Item
at_least n p = times n p ++ many p ∷ []

-- the characters of a text, as a class
abbrev pub among : Text → Class
among [] c = false
among (d ∷ ds) c = d == c || among ds c

abbrev pub is_letter_or_digit : Class
is_letter_or_digit c = is_upper_letter c || is_lower_letter c || (leb b'0' c && leb c b'9')

abbrev pub is_capital_or_digit : Class
is_capital_or_digit c = is_upper_letter c || (leb b'0' c && leb c b'9')

module _ (chars : CharDb) where
  -- `\w`
  abbrev pub is_word : Class
  is_word c = chars.is_alnum c || c == b'_'

  -- whether a word character comes next
  starts_word : Text → Bool
  starts_word [] = false
  starts_word (c ∷ s) = is_word c

  -- what is behind a repeated class, at each place where it can end
  run_many : Class → (Bool → Text → Bool) → Bool → Text → Bool
  run_many p rest word [] = rest word []
  run_many p rest word (c ∷ s) = rest word (c ∷ s) || (p c && run_many p rest (is_word c) s)

  run_up_to : ℕ → Class → (Bool → Text → Bool) → Bool → Text → Bool
  run_up_to zero p rest word s = rest word s
  run_up_to (suc n) p rest word [] = rest word []
  run_up_to (suc n) p rest word (c ∷ s) =
      rest word (c ∷ s) || (p c && run_up_to n p rest (is_word c) s)

  -- a match at the front of the text, behind a character that is a word character or not
  unfoldable pub matches : List Item → Bool → Text → Bool
  unfolding starts_word run_many run_up_to
  matches [] word s = true
  matches (one p ∷ items) word [] = false
  matches (one p ∷ items) word (c ∷ s) = p c && matches items (is_word c) s
  matches (many p ∷ items) word s = run_many p (matches items) word s
  matches (up_to n p ∷ items) word s = run_up_to n p (matches items) word s
  matches (boundary ∷ items) word s =
      (if word then not (starts_word s) else starts_word s) && matches items word s
  matches (the_end ∷ items) word [] = matches items word []
  matches (the_end ∷ items) word (c ∷ s) = false

  unfoldable pub matches_any : Pattern → Bool → Text → Bool
  matches_any [] word s = false
  matches_any (items ∷ alternatives) word s =
      matches items word s || matches_any alternatives word s

  search_from : Pattern → Bool → Text → Bool
  unfolding matches_any
  search_from pattern word [] = matches_any pattern word []
  search_from pattern word (c ∷ s) =
      matches_any pattern word (c ∷ s) || search_from pattern (is_word c) s

  -- pattern.search(text)
  unfoldable pub search : Pattern → Text → Bool
  unfolding search_from
  search pattern s = search_from pattern false s
