-- ===== src/Errors/Status/Range.antt =====
-- The status that is found.
use n8n_production_systems.Errors.Status.{
  Field, Fields, leaf, mapping, null, flag, integer, float, text, object, in_range, in_range_float,
  or_next, status_of_text, to_status, status_of_match, status_in_message, status_under,
  first_status, field_of, status_keys,
}
use n8n_production_systems.Text.{Text, CharDb}
use n8n_production_systems.Text.Strip.{strip}
use n8n_production_systems.Text.Shape.{int_of, str_all}
use n8n_production_systems.Common.{
  some, ℕ, Option, Outcome, List, ℤ, Bool-cases, ◌≤◌, ◌∷◌, inr, ◌≡◌, none, raises, ok, subst, inl,
  pos, [], leb, Outcome-cases, ◌&&◌, arith, negsuc,
}

abbrev pub IsStatus : ℕ → Type 0
IsStatus n = (100 ≤ n) × (n ≤ 599)

-- whatever status is found is one
abbrev FindsStatus : Outcome (Option ℕ) → Type 0
FindsStatus (raises e) = Unit
FindsStatus (ok none) = Unit
FindsStatus (ok (some n)) = IsStatus n

in_range_lem : (z : ℤ) → FindsStatus (ok (in_range z))
unfolding in_range
in_range_lem (pos n) = elim (Bool-cases (leb 100 n && leb n 599)) [
  | inl inside ↦ rw inside (ground (arith, inside))
  | inr outside ↦ rw outside tt
]
in_range_lem (negsuc n) = tt

or_next_lem :
    (m next : Outcome (Option ℕ)) → FindsStatus m → FindsStatus next → FindsStatus (or_next m next)
unfolding or_next
or_next_lem (raises e) next h k = h
or_next_lem (ok none) next h k = k
or_next_lem (ok (some n)) next h k = h

module _ (chars : CharDb) where
  status_of_text_lem : (s : Text) → FindsStatus (status_of_text chars s)
  unfolding status_of_text
  status_of_text_lem s = elim (Bool-cases (str_all chars.is_digit (strip chars s))) [
    | inr other ↦ rw other tt
    | inl number ↦ elim (Outcome-cases (int_of chars (strip chars s))) [
      | inl (e, is) ↦ rw (number, is) tt
      | inr (n, is) ↦ rw (number, is) (in_range_lem (pos n))
    ]
  ]

  to_status_lem : (f : Field) → FindsStatus (to_status chars f)
  unfolding to_status in_range_float
  to_status_lem (leaf null) = tt
  to_status_lem (leaf (flag b)) = tt
  to_status_lem (leaf (integer n)) = in_range_lem n
  to_status_lem (leaf (float none)) = tt
  to_status_lem (leaf (float (some n))) = in_range_lem n
  to_status_lem (leaf (text s)) = status_of_text_lem s
  to_status_lem (leaf (object b)) = tt
  to_status_lem (mapping fields) = tt

  status_of_match_lem : (found : Option Text) → FindsStatus (status_of_match chars found)
  unfolding status_of_match
  status_of_match_lem none = tt
  status_of_match_lem (some ds) = to_status_lem (leaf (text ds))

  status_under_lem :
      (render : Field → Text) (src nested : Fields) (keys : List Text)
      → FindsStatus (status_under chars render src nested keys)
  unfolding status_under status_in_message
  status_under_lem render src nested [] = status_of_match_lem _
  status_under_lem render src nested (key ∷ keys) =
      or_next_lem _ _ (to_status_lem (field_of src key)) (
        or_next_lem _ _ (to_status_lem (field_of nested key))
          (status_under_lem render src nested keys))

-- A status that is found, under a key or in a message, is an HTTP status from 100 to 599.
pub first_status-IsStatus :
    (chars : CharDb) (render : Field → Text) (src nested : Fields) (n : ℕ)
    → first_status chars render src nested ≡ ok (some n)
    → IsStatus n
unfolding first_status
first_status-IsStatus chars render src nested n h =
    subst FindsStatus h (status_under_lem chars render src nested status_keys)
