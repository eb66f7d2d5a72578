-- ===== src/Json.antt =====
-- The values that Python's `json` reads: the data of a workflow document.
use n8n_production_systems.Text.{Text, text_eq}
use n8n_production_systems.Text.Equality.{text_eq_iff, text_eq_refl}
use n8n_production_systems.Common.{
  ℕ, suc, ℤ, ◌≡◌, refl, Bool, true, false, Option, none, some, if◌then◌else◌, arith, Bool-cases,
  inl, inr, ◌||◌,
}

-- A float is given by its literal. The items of an object stand in the order of the `dict`, whose
-- keys are distinct.
mutual
  pub data Json : Type 0 where
    null : Json
    boolean : Bool → Json
    integer : ℤ → Json
    float : Text → Json
    string : Text → Json
    array : Elements → Json
    object : Members → Json

  pub data Elements : Type 0 where
    nil : Elements
    cons : Json → Elements → Elements

  pub data Members : Type 0 where
    end : Members
    member : Text → Json → Members → Members

-- members.get(key)
unfoldable pub lookup : Members → Text → Option Json
lookup end key = none
lookup (member k v ms) key = if text_eq k key then some v else lookup ms key

-- members[key] = value
unfoldable pub set_member : Members → Text → Json → Members
set_member end key value = member key value end
set_member (member k v ms) key value =
    if text_eq k key then member k value ms else member k v (set_member ms key value)

unfoldable pub count : Elements → ℕ
count nil = 0
count (cons x xs) = suc (count xs)

-- isinstance(value, str)
unfoldable pub is_string : Json → Bool
is_string (string s) = true
is_string _ = false

unfoldable pub or_null : Option Json → Json
or_null none = null
or_null (some v) = v

-- members.get(key), `None` where it is missing
unfoldable pub field : Members → Text → Json
unfolding lookup or_null
field ms key = or_null (lookup ms key)

-- `key in ms`
unfoldable pub has_key : Members → Text → Bool
has_key end key = false
has_key (member k item ms) key = text_eq k key || has_key ms key

pub has_key-set_member :
    (ms : Members) (key other : Text) (value : Json)
    → has_key (set_member ms key value) other ≡ (text_eq key other || has_key ms other)
unfolding has_key set_member
has_key-set_member end key other value = refl
has_key-set_member (member k v ms) key other value = ground (
  arith,
  text_eq_iff k key,
  text_eq_iff k other,
  text_eq_iff key other,
  has_key-set_member ms key other value,
)

pub lookup-set_member :
    (ms : Members) (key other : Text) (value : Json)
    → lookup (set_member ms key value) other
      ≡ (if text_eq key other then some value else lookup ms other)
unfolding lookup set_member
lookup-set_member end key other value = refl
lookup-set_member (member k v ms) key other value = ground (
  arith,
  text_eq_iff k key,
  text_eq_iff k other,
  text_eq_iff key other,
  lookup-set_member ms key other value,
)

pub set_member-twice :
    (ms : Members) (key : Text) (value : Json)
    → set_member (set_member ms key value) key value ≡ set_member ms key value
unfolding set_member
set_member-twice end key value = rw (text_eq_refl key) refl
set_member-twice (member k v ms) key value = elim (Bool-cases (text_eq k key)) [
  | inl same ↦ rw (same, same) refl
  | inr different ↦ rw (different, different, set_member-twice ms key value) refl
]
