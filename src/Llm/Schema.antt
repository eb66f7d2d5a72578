-- ===== src/Llm/Schema.antt =====
-- `default_from_schema` of platform/services/mock-llm/src/mock_llm/main.py: a value for a schema. A
-- schema that is nested in another is taken by recursion on fuel; `Llm.Schema.Fuel` shows that the
-- depth of the schema is enough.
pub mod Fuel
pub mod Required
use n8n_production_systems.Json.{
  Json, null, boolean, integer, float, string, array, object, Elements, nil, cons, Members, end,
  member, lookup, field, set_member,
}
use n8n_production_systems.Text.{Text, codes, text_eq}
use n8n_production_systems.Common.{
  ℕ, zero, suc, ℤ, pos, negsuc, Bool, true, false, ◌||◌, ◌&&◌, Option, none, some, if◌then◌else◌,
  List, [], ◌∷◌,
}

-- Python's `bool`, `str` and `int` of a float, and `float` of an integer. A float is finite.
pub record Numbers : Type 0 where
  pub is_zero : Text → Bool
  pub render : Json → Text
  pub truncate : Text → ℤ
  pub to_float : ℤ → Text

-- {"ok": True}
abbrev pub placeholder : Json
placeholder = object (member (codes "ok") (boolean true) end)

is_text : Json → Text → Bool
is_text (string s) t = text_eq s t
is_text _ t = false

-- next((item for item in raw_type if item != "null"), None)
next_type : Elements → Json
unfolding is_text
next_type nil = null
next_type (cons x xs) = let rest = next_type xs in if is_text x (codes "null") then rest else x

unfoldable pub first_enum : Json → Option Json
first_enum (array (cons x xs)) = some x
first_enum _ = none

-- The strings of a list, and the keys of an object.
texts_of : Elements → List Text
texts_of nil = []
texts_of (cons (string s) xs) = s ∷ texts_of xs
texts_of (cons _ xs) = texts_of xs

unfoldable pub keys_of : Members → List Text
keys_of end = []
keys_of (member key item ms) = key ∷ keys_of ms

unfoldable pub wanted_keys : Json → Members → List Text
unfolding texts_of keys_of
wanted_keys (array (cons x xs)) props = texts_of (cons x xs)
wanted_keys _ props = keys_of props

unfoldable pub members_of : Json → Members
members_of (object ms) = ms
members_of _ = end

unfoldable pub replicate : ℕ → Json → Elements
replicate zero v = nil
replicate (suc n) v = cons v (replicate n v)

non_negative : ℤ → ℕ
non_negative (pos n) = n
non_negative (negsuc n) = 0

first_option : Json → Option Members
first_option (array (cons (object ms) xs)) = some ms
first_option _ = none

-- A value that the schema names, or the next one.
unfoldable pub value_or : Option Json → Json → Json
value_or none next = next
value_or (some v) next = v

-- The first of two that is there.
some_option : Option Members → Option Members → Option Members
some_option (some ms) next = some ms
some_option none next = next

has_properties : Members → Bool
has_properties ms = elim (lookup ms (codes "properties")) [ none ↦ false | some v ↦ true ]

module _ (num : Numbers) where
  str_of : Json → Text
  str_of (string s) = s
  str_of v = num.render v

  type_of_list : Elements → Json → Json
  unfolding str_of
  type_of_list (cons x xs) null = string (str_of x)
  type_of_list xs found = found

  -- the name of the type; `None` is null
  type_name : Json → Json
  unfolding type_of_list next_type
  type_name (array xs) = type_of_list xs (next_type xs)
  type_name (string s) = string s
  type_name _ = null

  -- int(schema.get("minItems") or 0); a Boolean is an integer
  unfoldable pub min_items : Json → ℕ
  unfolding non_negative
  min_items (integer n) = non_negative n
  min_items (float s) = if num.is_zero s then 0 else non_negative (num.truncate s)
  min_items (boolean b) = if b then 1 else 0
  min_items _ = 0

  of_bool : Bool → ℤ
  of_bool b = if b then pos 1 else pos 0

  integer_default : Json → Json
  unfolding of_bool
  integer_default (integer n) = integer n
  integer_default (float s) = integer (num.truncate s)
  integer_default (boolean b) = integer (of_bool b)
  integer_default _ = integer (pos 0)

  number_default : Json → Json
  unfolding of_bool
  number_default (integer n) = float (num.to_float n)
  number_default (float s) = float s
  number_default (boolean b) = float (num.to_float (of_bool b))
  number_default _ = float (codes "0.0")

  -- The nested schemas are handed to `rec`.
  module _ (rec : Members → Json) where
    -- default_from_schema(child if isinstance(child, dict) else {})
    unfoldable pub child_default : Option Json → Json
    child_default (some (object ms)) = rec ms
    child_default _ = placeholder

    unfoldable pub fill : Members → List Text → Members → Members
    unfolding child_default
    fill props [] out = out
    fill props (key ∷ keys) out =
        fill props keys (set_member out key (child_default (lookup props key)))

    -- out if out else {"ok": True}
    unfoldable pub filled : Members → Json
    filled end = placeholder
    filled (member key item ms) = object (member key item ms)

    unfoldable pub object_default : Members → Json
    unfolding fill filled members_of wanted_keys
    object_default ms =
        let props = members_of (field ms (codes "properties")) in
        filled (fill props (wanted_keys (field ms (codes "required")) props) end)

    items_default : Json → ℕ → Json
    items_default (object items) (suc n) = array (replicate (suc n) (rec items))
    items_default _ n = array nil

    option_default : Option Members → Json
    option_default none = placeholder
    option_default (some ms) = rec ms

    union_default : Members → Json
    unfolding first_option some_option option_default
    union_default ms = option_default (
        some_option (first_option (field ms (codes "anyOf")))
          (first_option (field ms (codes "oneOf"))))

    -- the part behind `const`, `enum` and `default`
    typed_default : Members → Json
    unfolding type_name is_text object_default items_default min_items integer_default
        number_default union_default has_properties
    typed_default ms =
        let name = type_name (field ms (codes "type")) in
        if is_text name (codes "object") || has_properties ms
        then object_default ms
        else if is_text name (codes "array")
        then items_default (field ms (codes "items")) (min_items (field ms (codes "minItems")))
        else if is_text name (codes "string")
        then string (codes "default")
        else if is_text name (codes "integer")
        then integer_default (field ms (codes "minimum"))
        else if is_text name (codes "number")
        then number_default (field ms (codes "minimum"))
        else if is_text name (codes "boolean")
        then boolean false
        else if is_text name (codes "null")
        then null
        else union_default ms

    given_default : Members → Json
    unfolding typed_default value_or
    given_default ms = value_or (lookup ms (codes "default")) (typed_default ms)

    enum_default : Members → Json
    unfolding given_default first_enum value_or
    enum_default ms = value_or (first_enum (field ms (codes "enum"))) (given_default ms)

    unfoldable pub schema_step : Members → Json
    unfolding enum_default value_or
    schema_step end = placeholder
    schema_step (member key item ms) =
        value_or (lookup (member key item ms) (codes "const")) (enum_default (member key item ms))

  unfoldable pub default_from_schema : ℕ → Members → Json
  unfolding schema_step
  default_from_schema zero ms = placeholder
  default_from_schema (suc fuel) ms = schema_step (default_from_schema fuel) ms
