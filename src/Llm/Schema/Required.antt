-- ===== src/Llm/Schema/Required.antt =====
-- The value for a schema of an object has the keys that the schema wants.
use n8n_production_systems.Json.{
  Json, string, Members, end, member, lookup, field, has_key, has_key-set_member, or_null,
}
use n8n_production_systems.Text.{Text, codes, text_eq}
use n8n_production_systems.Text.Equality.{text_eq_refl}
use n8n_production_systems.Llm.Schema.{
  Numbers, members_of, wanted_keys, child_default, fill, filled, object_default, typed_default,
  given_default, enum_default, schema_step, default_from_schema, first_enum, value_or, type_name,
  is_text,
}
use n8n_production_systems.Common.{ℕ, suc, ◌≡◌, refl, true, none, List, [], ◌∷◌, All, arith}

end_untyped : (t : Text) → field end (codes "type") ≡ string t → ⊥
unfolding field lookup or_null
end_untyped t h = cc

module _ (num : Numbers) (rec : Members → Json) where
  -- A key that is there stays.
  has_key-fill :
      (props : Members) (keys : List Text) (out : Members) (key : Text)
      → has_key out key ≡ true
      → has_key (fill num rec props keys out) key ≡ true
  unfolding fill
  has_key-fill props [] out key h = h
  has_key-fill props (k ∷ keys) out key h =
      has_key-fill props keys _ key
        (ground (arith, has_key-set_member out k key (child_default num rec (lookup props k))))

  fill-All :
      (props : Members) (keys : List Text) (out : Members)
      → All (λ key. has_key (fill num rec props keys out) key ≡ true) keys
  unfolding fill
  fill-All props [] out = tt
  fill-All props (k ∷ keys) out = (
    has_key-fill props keys _ k (
        ground (
          arith,
          has_key-set_member out k k (child_default num rec (lookup props k)),
          text_eq_refl k,
        )),
    fill-All props keys _,
  )

  has_key-filled :
      (ms : Members) (key : Text)
      → has_key ms key ≡ true
      → has_key (members_of (filled num rec ms)) key ≡ true
  unfolding has_key filled members_of
  has_key-filled end key h = cc
  has_key-filled (member k v ms) key h = h

  All-filled :
      (ms : Members) (keys : List Text)
      → All (λ key. has_key ms key ≡ true) keys
      → All (λ key. has_key (members_of (filled num rec ms)) key ≡ true) keys
  All-filled ms [] h = tt
  All-filled ms (key ∷ keys) h = (has_key-filled ms key h.0, All-filled ms keys h.1)

  step_object :
      (ms : Members)
      → lookup ms (codes "const") ≡ none
      → first_enum (field ms (codes "enum")) ≡ none
      → lookup ms (codes "default") ≡ none
      → field ms (codes "type") ≡ string (codes "object")
      → schema_step num rec ms ≡ object_default num rec ms
  unfolding schema_step enum_default given_default typed_default value_or type_name is_text text_eq
  step_object end no_const no_enum no_default is_object =
      absurd (end_untyped (codes "object") is_object)
  step_object (member k v ms) no_const no_enum no_default is_object =
      rw (no_const, no_enum, no_default, is_object) refl

-- The value for a schema of type object, which names no value itself, has each key that the schema
-- requires, or each of its properties where it requires none.
pub default_from_schema_keys :
    (num : Numbers) (fuel : ℕ) (ms : Members)
    → lookup ms (codes "const") ≡ none
    → first_enum (field ms (codes "enum")) ≡ none
    → lookup ms (codes "default") ≡ none
    → field ms (codes "type") ≡ string (codes "object")
    → All
        (λ key. has_key (members_of (default_from_schema num (suc fuel) ms)) key ≡ true)
        (wanted_keys (field ms (codes "required")) (members_of (field ms (codes "properties"))))
unfolding default_from_schema object_default
default_from_schema_keys num fuel ms no_const no_enum no_default is_object =
    let rec = default_from_schema num fuel in
    let props = members_of (field ms (codes "properties")) in
    let keys = wanted_keys (field ms (codes "required")) props in
    rw (step_object num rec ms no_const no_enum no_default is_object)
      (All-filled num rec (fill num rec props keys end) keys (fill-All num rec props keys end))
