-- ===== src/Workflows/Values.antt =====
-- What the scripts ask of a value of a document: its truth, its text, and the order of a float.
use n8n_production_systems.Json.{
  Json, null, boolean, integer, float, string, array, object, nil, cons, end, member,
}
use n8n_production_systems.Text.{Text, CharDb, is_empty}
use n8n_production_systems.Common.{
  pos, negsuc, Bool, true, false, not, ◌==◌, Option, some, if◌then◌else◌, [],
}

pub data Sign : Type 0 where
  negative zero positive not_a_number : Sign

-- Python's `float` of a text, by its sign (none where it raises a `ValueError`), and `str` of a
-- value that is not a text.
pub record Python : Type 0 where
  pub chars : CharDb
  pub float_of : Text → Option Sign
  pub render : Json → Text

unfoldable pub is_positive : Option Sign → Bool
is_positive (some positive) = true
is_positive _ = false

is_zero : Option Sign → Bool
is_zero (some zero) = true
is_zero _ = false

module _ (py : Python) where
  -- bool(value)
  unfoldable pub truth : Json → Bool
  unfolding is_zero
  truth null = false
  truth (boolean b) = b
  truth (integer (pos n)) = not (n == 0)
  truth (integer (negsuc n)) = true
  truth (float s) = not (is_zero (py.float_of s))
  truth (string s) = not (is_empty s)
  truth (array nil) = false
  truth (array (cons x xs)) = true
  truth (object end) = false
  truth (object (member key item ms)) = true

  str_of : Json → Text
  str_of (string s) = s
  str_of v = py.render v

  -- str(value or "")
  unfoldable pub text_or_empty : Json → Text
  unfolding truth str_of
  text_or_empty v = if truth v then str_of v else []
