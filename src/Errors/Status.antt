-- ===== src/Errors/Status.antt =====
-- `_first_status`: the HTTP status that an error names.
pub mod Range
use n8n_production_systems.Dict.{get}
use n8n_production_systems.Text.{Text, CharDb, codes, is_empty}
use n8n_production_systems.Text.Contains.{letter_eq}
use n8n_production_systems.Text.Equality.{text_key}
use n8n_production_systems.Text.Strip.{strip}
use n8n_production_systems.Text.Shape.{int_of, str_all, lit}
use n8n_production_systems.Common.{
  get_or, ◌>>=◌, Bool, Option, List, ℤ, if◌then◌else◌, ℕ, Outcome, [], ◌∷◌, ◌==◌, false, some,
  raises, ◌||◌, ok, none, pos, ◌&&◌, not, true, leb, negsuc, ◌+◌,
}

-- A value of the input. A float is given by the integer that it equals, if it does; any other
-- object by its truth.
pub data Value : Type 0 where
  null : Value
  flag : Bool → Value
  integer : ℤ → Value
  float : Option ℤ → Value
  text : Text → Value
  object : Bool → Value

-- a value under a key of the input, which may be a mapping itself
pub data Field : Type 0 where
  leaf : Value → Field
  mapping : List (Text × Value) → Field

abbrev pub Fields : Type 0
Fields = List (Text × Field)

-- fields.get(key)
unfoldable pub field_of : Fields → Text → Field
field_of fields key = get_or (get fields key) (leaf null)

leaves : List (Text × Value) → Fields
leaves [] = []
leaves ((key, value) ∷ rest) = (key, leaf value) ∷ leaves rest

unfoldable pub nested_field : Field → Fields
unfolding leaves
nested_field (leaf value) = []
nested_field (mapping fields) = leaves fields

abbrev pub status_keys : List Text
status_keys =
    codes "status"
    ∷ codes "statusCode"
    ∷ codes "httpCode"
    ∷ codes "status_code"
    ∷ codes "http_code"
    ∷ []

-- number if 100 <= number <= 599 else None
unfoldable pub in_range : ℤ → Option ℕ
in_range (pos n) = if leb 100 n && leb n 599 then some n else none
in_range (negsuc n) = none

in_range_float : Option ℤ → Option ℕ
unfolding in_range
in_range_float none = none
in_range_float (some n) = in_range n

abbrev in_range_of : ℕ → Option ℕ
in_range_of n = in_range (pos n)

-- a or b
unfoldable pub truth : Field → Bool
truth (leaf null) = false
truth (leaf (flag b)) = b
truth (leaf (integer (pos n))) = not (n == 0)
truth (leaf (integer (negsuc n))) = true
truth (leaf (float (some (pos n)))) = not (n == 0)
truth (leaf (float (some (negsuc n)))) = true
truth (leaf (float none)) = true
truth (leaf (text s)) = not (is_empty s)
truth (leaf (object b)) = b
truth (mapping fields) = not (is_empty fields)

-- the first status, the second part of a loop only if the first finds none
unfoldable pub or_next : Outcome (Option ℕ) → Outcome (Option ℕ) → Outcome (Option ℕ)
or_next (raises e) next = raises e
or_next (ok none) next = next
or_next (ok (some n)) next = ok (some n)

-- what follows the pattern at the front of the text
after : Text → Text → Option Text
after [] s = some s
after (p ∷ ps) [] = none
after (p ∷ ps) (c ∷ s) = if letter_eq p c then after ps s else none

module _ (chars : CharDb) where
  -- isdigit, then int
  status_of_text : Text → Outcome (Option ℕ)
  unfolding in_range
  status_of_text value =
      let stripped = strip chars value in
      if str_all chars.is_digit stripped
      then (do n ← int_of chars stripped; ok (in_range_of n))
      else ok none

  unfoldable pub to_status : Field → Outcome (Option ℕ)
  unfolding status_of_text in_range_float
  to_status (leaf null) = ok none
  to_status (leaf (flag b)) = ok none
  to_status (leaf (integer n)) = ok (in_range n)
  to_status (leaf (float n)) = ok (in_range_float n)
  to_status (leaf (text s)) = status_of_text s
  to_status (leaf (object b)) = ok none
  to_status (mapping fields) = ok none

  is_decimal : ℕ → Bool
  is_decimal c = elim (chars.decimal c) [ none ↦ false | some d ↦ true ]

  -- `\w`
  is_word : ℕ → Bool
  is_word c = chars.is_alnum c || c == b'_'

  -- (\d{3}) and what follows it
  three_digits : Text → Option (Text × Text)
  unfolding is_decimal
  three_digits (c ∷ d ∷ e ∷ s) =
      if is_decimal c && is_decimal d && is_decimal e then some (c ∷ d ∷ e ∷ [], s) else none
  three_digits _ = none

  digits_behind : Option Text → Option Text
  unfolding three_digits
  digits_behind none = none
  digits_behind (some s) = elim (three_digits s) [ none ↦ none | some (ds, rest) ↦ some ds ]

  -- status code (\d{3})
  search_status : Text → Option Text
  unfolding digits_behind after
  search_status [] = none
  search_status (c ∷ s) = elim (digits_behind (after (codes "status code ") (c ∷ s))) [
    | some ds ↦ some ds
    | none ↦ search_status s
  ]

  -- `\b` behind the digits: the end, or no word character
  bounded : Option (Text × Text) → Option Text
  unfolding is_word
  bounded none = none
  bounded (some (ds, [])) = some ds
  bounded (some (ds, c ∷ s)) = if is_word c then none else some ds

  -- [ /](\d{3})\b
  behind_http : Option Text → Option Text
  unfolding bounded three_digits
  behind_http none = none
  behind_http (some []) = none
  behind_http (some (c ∷ s)) = if c == b' ' || c == b'/' then bounded (three_digits s) else none

  -- \bHTTP[ /](\d{3})\b, behind a character that is a word character or not
  search_http : Bool → Text → Option Text
  unfolding behind_http after is_word
  search_http word [] = none
  search_http word (c ∷ s) =
      let rest = search_http (is_word c) s in
      elim (if word then none else behind_http (after (codes "http") (c ∷ s))) [
        | some ds ↦ some ds
        | none ↦ rest
      ]

  status_of_match : Option Text → Outcome (Option ℕ)
  unfolding to_status
  status_of_match none = ok none
  status_of_match (some ds) = to_status (leaf (text ds))

  or_search : Option Text → Option Text → Option Text
  or_search (some ds) next = some ds
  or_search none next = next

  module _ (render : Field → Text) where
    -- str(value): a text is itself
    str_of : Field → Text
    str_of (leaf (text s)) = s
    str_of f = render f

    -- str(src.get("message") or nested.get("message") or src.get("error") or "")
    message_of : Fields → Fields → Text
    unfolding str_of truth
    message_of src nested =
        let a = field_of src (codes "message") in
        let b = field_of nested (codes "message") in
        let c = field_of src (codes "error") in
        if truth a then str_of a else if truth b then str_of b else if truth c then str_of c else []

    status_in_message : Text → Outcome (Option ℕ)
    unfolding status_of_match search_status search_http or_search
    status_in_message message =
        status_of_match (or_search (search_status message) (search_http false message))

    -- the loop over the keys
    status_under : Fields → Fields → List Text → Outcome (Option ℕ)
    unfolding status_in_message message_of to_status or_next
    status_under src nested [] = status_in_message (message_of src nested)
    status_under src nested (key ∷ keys) =
        or_next (to_status (field_of src key))
          (or_next (to_status (field_of nested key)) (status_under src nested keys))

    unfoldable pub first_status : Fields → Fields → Outcome (Option ℕ)
    unfolding status_under
    first_status src nested = status_under src nested status_keys
