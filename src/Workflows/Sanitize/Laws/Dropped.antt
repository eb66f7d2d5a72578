-- ===== src/Workflows/Sanitize/Laws/Dropped.antt =====
-- The documents that `_strip` leaves alone are those without an item to drop.
use n8n_production_systems.Json.{
  Json, null, boolean, integer, float, string, array, object, Elements, nil, cons, Members, end,
  member, is_string,
}
use n8n_production_systems.Text.{Text}
use n8n_production_systems.Workflows.Sanitize.{
  is_dropped, child_path, strip_value, strip_elements, strip_members,
}
use n8n_production_systems.Common.{◌≡◌, refl, false, Bool-cases, inl, inr}

-- No item of the value, at any depth, is one that is dropped at its path.
unfoldable mutual
  pub Clean : Text → Json → Type 0
  Clean path null = Unit
  Clean path (boolean b) = Unit
  Clean path (integer n) = Unit
  Clean path (float n) = Unit
  Clean path (string s) = Unit
  Clean path (array xs) = CleanElements path xs
  Clean path (object ms) = CleanMembers path ms

  pub CleanElements : Text → Elements → Type 0
  CleanElements path nil = Unit
  CleanElements path (cons x xs) = Clean path x × CleanElements path xs

  pub CleanMembers : Text → Members → Type 0
  CleanMembers path end = Unit
  CleanMembers path (member key item ms) =
      (is_dropped path key item ≡ false) × Clean (child_path path key) item × CleanMembers path ms

is_string-strip_value : (path : Text) (v : Json) → is_string (strip_value path v) ≡ is_string v
unfolding is_string strip_value
is_string-strip_value path null = refl
is_string-strip_value path (boolean b) = refl
is_string-strip_value path (integer n) = refl
is_string-strip_value path (float n) = refl
is_string-strip_value path (string s) = refl
is_string-strip_value path (array xs) = refl
is_string-strip_value path (object ms) = refl

pub is_dropped-strip_value :
    (path key inner : Text) (item : Json)
    → is_dropped path key (strip_value inner item) ≡ is_dropped path key item
unfolding is_dropped
is_dropped-strip_value path key inner item = rw (is_string-strip_value inner item)

mutual
  unfolding strip_value Clean

  pub strip_value-Clean : (path : Text) (v : Json) → Clean path (strip_value path v)
  strip_value-Clean path null = tt
  strip_value-Clean path (boolean b) = tt
  strip_value-Clean path (integer n) = tt
  strip_value-Clean path (float n) = tt
  strip_value-Clean path (string s) = tt
  strip_value-Clean path (array xs) = strip_elements-Clean path xs
  strip_value-Clean path (object ms) = strip_members-Clean path ms

  strip_elements-Clean : (path : Text) (xs : Elements) → CleanElements path (strip_elements path xs)
  strip_elements-Clean path nil = tt
  strip_elements-Clean path (cons x xs) = (strip_value-Clean path x, strip_elements-Clean path xs)

  strip_members-Clean : (path : Text) (ms : Members) → CleanMembers path (strip_members path ms)
  strip_members-Clean path end = tt
  strip_members-Clean path (member key item ms) = elim (Bool-cases (is_dropped path key item)) [
    | inl dropped ↦ rw dropped (strip_members-Clean path ms)
    | inr kept ↦
        let inner = child_path path key in
        rw kept (
          rw (is_dropped-strip_value path key inner item, kept) refl,
          strip_value-Clean inner item,
          strip_members-Clean path ms,
        )
  ]

mutual
  unfolding strip_value Clean

  pub strip_value_self : (path : Text) (v : Json) → Clean path v → strip_value path v ≡ v
  strip_value_self path null h = refl
  strip_value_self path (boolean b) h = refl
  strip_value_self path (integer n) h = refl
  strip_value_self path (float n) h = refl
  strip_value_self path (string s) h = refl
  strip_value_self path (array xs) h = rw (strip_elements_self path xs h)
  strip_value_self path (object ms) h = rw (strip_members_self path ms h)

  strip_elements_self :
      (path : Text) (xs : Elements) → CleanElements path xs → strip_elements path xs ≡ xs
  strip_elements_self path nil h = refl
  strip_elements_self path (cons x xs) h =
      rw (strip_value_self path x h.0, strip_elements_self path xs h.1)

  strip_members_self :
      (path : Text) (ms : Members) → CleanMembers path ms → strip_members path ms ≡ ms
  strip_members_self path end h = refl
  strip_members_self path (member key item ms) (kept, inner, rest) =
      rw (kept, strip_value_self (child_path path key) item inner, strip_members_self path ms rest)
