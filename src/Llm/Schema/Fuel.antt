-- ===== src/Llm/Schema/Fuel.antt =====
-- Fuel above the depth of a schema is enough: more does not change the value.
use n8n_production_systems.Json.{
  Json, null, boolean, integer, float, string, array, object, Elements, nil, cons, Members, end,
  member, lookup, field, or_null, set_member,
}
use n8n_production_systems.Text.{Text, codes, text_eq}
use n8n_production_systems.Llm.Schema.{
  Numbers, members_of, wanted_keys, child_default, fill, object_default, items_default,
  first_option, some_option, option_default, union_default, typed_default, given_default,
  enum_default, schema_step, default_from_schema,
}
use n8n_production_systems.Common.{
  ℕ, zero, suc, ◌≤◌, ◌<◌, ◌≡◌, refl, Option, none, some, List, [], ◌∷◌, Bool-cases, inl, inr, arith,
}
use Prim.Native.Nat.{max}

-- How deep the objects of a value are nested.
unfoldable mutual
  pub depth : Json → ℕ
  depth null = 0
  depth (boolean b) = 0
  depth (integer n) = 0
  depth (float s) = 0
  depth (string s) = 0
  depth (array xs) = depth_elements xs
  depth (object ms) = suc (depth_members ms)

  pub depth_elements : Elements → ℕ
  depth_elements nil = 0
  depth_elements (cons x xs) = max (depth x) (depth_elements xs)

  pub depth_members : Members → ℕ
  depth_members end = 0
  depth_members (member key item ms) = max (depth item) (depth_members ms)

depth-field : (ms : Members) (key : Text) → depth (field ms key) ≤ depth_members ms
unfolding field lookup or_null depth
depth-field end key = omega arith
depth-field (member k item ms) key = elim (Bool-cases (text_eq k key)) [
  | inl here ↦ rw here (omega arith)
  | inr other ↦ rw other (omega (arith, depth-field ms key))
]

depth-lookup :
    (ms : Members) (key : Text) (v : Json) → lookup ms key ≡ some v → depth v ≤ depth_members ms
unfolding lookup depth
depth-lookup end key v h = cc
depth-lookup (member k item ms) key v h = elim (Bool-cases (text_eq k key)) [
  | inl here ↦ let same : item ≡ v = ground arith in rw (← same) (omega arith)
  | inr other ↦ omega (arith, depth-lookup ms key v (rw other at h))
]

depth-members_of : (v : Json) → depth_members (members_of v) ≤ depth v
unfolding members_of depth
depth-members_of (object ms) = omega arith
depth-members_of null = omega arith
depth-members_of (boolean b) = omega arith
depth-members_of (integer n) = omega arith
depth-members_of (float s) = omega arith
depth-members_of (string s) = omega arith
depth-members_of (array xs) = omega arith

first_option-depth : (v : Json) (c : Members) → first_option v ≡ some c → depth_members c < depth v
unfolding first_option depth
first_option-depth (array (cons (object c) xs)) d h =
    let same : c ≡ d = ground arith in rw (← same) (omega arith)
first_option-depth v d h = cc

some_option-depth :
    (a b : Option Members) (bound : ℕ)
    → ((c : Members) → a ≡ some c → depth_members c < bound)
    → ((c : Members) → b ≡ some c → depth_members c < bound)
    → (c : Members) → some_option a b ≡ some c
    → depth_members c < bound
unfolding some_option
some_option-depth (some ms) b bound first next c h = first c h
some_option-depth none b bound first next c h = next c h

module _ (num : Numbers) (f g : Members → Json) where
  -- The two agree at the schemas nested below the bound.
  abbrev Agree : ℕ → Type 0
  Agree bound = (c : Members) → depth_members c < bound → f c ≡ g c

  child_default-Agree :
      (bound : ℕ) (v : Option Json)
      → Agree bound
      → ((w : Json) → v ≡ some w → depth w ≤ bound)
      → child_default num f v ≡ child_default num g v
  unfolding child_default depth
  child_default-Agree bound none agree below = refl
  child_default-Agree bound (some (object c)) agree below =
      agree c (omega (arith, below (object c) refl))
  child_default-Agree bound (some null) agree below = refl
  child_default-Agree bound (some (boolean b)) agree below = refl
  child_default-Agree bound (some (integer n)) agree below = refl
  child_default-Agree bound (some (float s)) agree below = refl
  child_default-Agree bound (some (string s)) agree below = refl
  child_default-Agree bound (some (array xs)) agree below = refl

  fill-Agree :
      (bound : ℕ) (props : Members) (keys : List Text) (out : Members)
      → Agree bound
      → depth_members props ≤ bound
      → fill num f props keys out ≡ fill num g props keys out
  unfolding fill
  fill-Agree bound props [] out agree below = refl
  fill-Agree bound props (key ∷ keys) out agree below =
      let child : child_default num f (lookup props key) ≡ child_default num g (lookup props key) =
        child_default-Agree bound (lookup props key) agree
          (λ w h. omega (arith, depth-lookup props key w h)) in
      rw child (fill-Agree bound props keys (set_member out key _) agree below)

  object_default-Agree :
      (ms : Members) → Agree (depth_members ms) → object_default num f ms ≡ object_default num g ms
  unfolding object_default
  object_default-Agree ms agree =
      let props = members_of (field ms (codes "properties")) in
      let below : depth_members props ≤ depth_members ms = omega (
        arith,
        depth-members_of (field ms (codes "properties")),
        depth-field ms (codes "properties"),
      ) in
      rw
        (fill-Agree (depth_members ms) props (wanted_keys (field ms (codes "required")) props) end
          agree below)
        refl

  items_default-Agree :
      (bound n : ℕ) (v : Json)
      → Agree bound
      → depth v ≤ bound
      → items_default num f v n ≡ items_default num g v n
  unfolding items_default depth
  items_default-Agree bound zero (object c) agree below = refl
  items_default-Agree bound (suc n) (object c) agree below = rw (agree c (omega arith)) refl
  items_default-Agree bound n null agree below = refl
  items_default-Agree bound n (boolean b) agree below = refl
  items_default-Agree bound n (integer m) agree below = refl
  items_default-Agree bound n (float s) agree below = refl
  items_default-Agree bound n (string s) agree below = refl
  items_default-Agree bound n (array xs) agree below = refl

  option_default-Agree :
      (bound : ℕ) (o : Option Members)
      → Agree bound
      → ((c : Members) → o ≡ some c → depth_members c < bound)
      → option_default num f o ≡ option_default num g o
  unfolding option_default
  option_default-Agree bound none agree below = refl
  option_default-Agree bound (some c) agree below = agree c (below c refl)

  union_default-Agree :
      (ms : Members) → Agree (depth_members ms) → union_default num f ms ≡ union_default num g ms
  unfolding union_default
  union_default-Agree ms agree =
      let any_of = field ms (codes "anyOf") in
      let one_of = field ms (codes "oneOf") in
      option_default-Agree (depth_members ms) _ agree (
        some_option-depth (first_option any_of) (first_option one_of) (depth_members ms)
          (λ c h. omega (arith, first_option-depth any_of c h, depth-field ms (codes "anyOf")))
          (λ c h. omega (arith, first_option-depth one_of c h, depth-field ms (codes "oneOf"))))

  typed_default-Agree :
      (ms : Members) → Agree (depth_members ms) → typed_default num f ms ≡ typed_default num g ms
  unfolding typed_default
  typed_default-Agree ms agree =
      rw
        (
          object_default-Agree ms agree,
          items_default-Agree (depth_members ms) _ (field ms (codes "items")) agree
              (depth-field ms (codes "items")),
          union_default-Agree ms agree,
        )
        refl

  schema_step-Agree :
      (ms : Members) → Agree (depth_members ms) → schema_step num f ms ≡ schema_step num g ms
  unfolding schema_step enum_default given_default
  schema_step-Agree end agree = refl
  schema_step-Agree (member key item ms) agree =
      rw (typed_default-Agree (member key item ms) agree) refl

default_from_schema_enough :
    (num : Numbers) (n m : ℕ) (ms : Members)
    → depth_members ms < n
    → depth_members ms < m
    → default_from_schema num n ms ≡ default_from_schema num m ms
unfolding default_from_schema
default_from_schema_enough num zero m ms low high = absurd (omega arith)
default_from_schema_enough num (suc n) zero ms low high = absurd (omega arith)
default_from_schema_enough num (suc n) (suc m) ms low high =
    schema_step-Agree num (default_from_schema num n) (default_from_schema num m) ms
      (λ c h. default_from_schema_enough num n m c (omega arith) (omega arith))

-- The recursion over a schema ends: with fuel above its depth, the value is that of one step whose
-- nested schemas are taken in the same way, and more fuel does not change it.
pub default_from_schema_ends :
    (num : Numbers) (n : ℕ) (ms : Members)
    → depth_members ms < n
    → (default_from_schema num n ms ≡ schema_step num (default_from_schema num n) ms)
      × ((m : ℕ) → n ≤ m → default_from_schema num m ms ≡ default_from_schema num n ms)
unfolding default_from_schema
default_from_schema_ends num n ms h = (
  default_from_schema_enough num n (suc n) ms h (omega arith),
  λ m more. default_from_schema_enough num m n ms (omega arith) h,
)
