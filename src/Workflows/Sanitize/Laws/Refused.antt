-- ===== src/Workflows/Sanitize/Laws/Refused.antt =====
-- A document is refused exactly if one of its texts matches one of the patterns.
use n8n_production_systems.Json.{
  Json, null, boolean, integer, float, string, array, object, Elements, nil, cons, Members, end,
  member,
}
use n8n_production_systems.Regex.{Pattern, search}
use n8n_production_systems.Text.{Text, CharDb, is_empty}
use n8n_production_systems.Text.Contains.{is_member}
use n8n_production_systems.Workflows.Sanitize.{
  is_dropped, child_path, strip_value, strip_elements, strip_members,
}
use n8n_production_systems.Workflows.Sanitize.Secrets.{
  collect_strings, collect_elements, collect_members, secret_patterns, hits_of, hits_from,
  find_secret_matches,
}
use n8n_production_systems.Common.{
  ◌≡◌, refl, Bool, true, false, not, ◌||◌, Bool-cases, inl, inr, arith, List, [], ◌∷◌, ◌++◌,
}

unfoldable pub any_text : (Text → Bool) → List Text → Bool
any_text p [] = false
any_text p (s ∷ texts) = p s || any_text p texts

pub any_text-append :
    (p : Text → Bool) (a b : List Text) → any_text p (a ++ b) ≡ (any_text p a || any_text p b)
unfolding any_text
any_text-append p [] b = refl
any_text-append p (s ∷ a) b = ground (arith, any_text-append p a b)

-- A text matches one of the patterns.
unfoldable pub matches_one : CharDb → List (Text × Pattern) → Text → Bool
matches_one chars [] s = false
matches_one chars ((name, pattern) ∷ patterns) s =
    search chars pattern s || matches_one chars patterns s

abbrev pub has_secret : CharDb → Text → Bool
has_secret chars = matches_one chars (secret_patterns chars)

module _ (chars : CharDb) where
  hits_of_none :
      (patterns : List (Text × Pattern)) (s : Text) (seen : List Text)
      → matches_one chars patterns s ≡ false
      → hits_of chars patterns s seen ≡ (seen, [])
  unfolding hits_of matches_one
  hits_of_none [] s seen h = refl
  hits_of_none ((name, pattern) ∷ patterns) s seen h = ground (arith, hits_of_none patterns s seen)

  hits_of_some :
      (patterns : List (Text × Pattern)) (s : Text)
      → matches_one chars patterns s ≡ true
      → is_empty ((hits_of chars patterns s []).1) ≡ false
  unfolding hits_of matches_one is_member
  hits_of_some [] s h = cc
  hits_of_some ((name, pattern) ∷ patterns) s h = elim (Bool-cases (search chars pattern s)) [
    | inl found ↦ rw found refl
    | inr missed ↦ rw missed (hits_of_some patterns s (ground arith))
  ]

  is_empty-append_lem : (a b : List (Text × Text)) → is_empty a ≡ false → is_empty (a ++ b) ≡ false
  is_empty-append_lem [] b h = cc
  is_empty-append_lem (x ∷ a) b h = refl

  is_empty-hits_from :
      (texts : List Text)
      → is_empty (hits_from chars texts []) ≡ not (any_text (has_secret chars) texts)
  unfolding hits_from any_text
  is_empty-hits_from [] = refl
  is_empty-hits_from (s ∷ texts) = elim (Bool-cases (has_secret chars s)) [
    | inl found ↦ rw found (is_empty-append_lem _ _ (hits_of_some (secret_patterns chars) s found))
    | inr missed ↦
        rw (missed, hits_of_none (secret_patterns chars) s [] missed) (is_empty-hits_from texts)
  ]

-- The sanitiser reports a match exactly if a text of the document, at any depth, matches one of the
-- patterns.
pub find_secret_matches_lem :
    (chars : CharDb) (value : Json)
    → is_empty (find_secret_matches chars value)
      ≡ not (any_text (has_secret chars) (collect_strings value))
unfolding find_secret_matches
find_secret_matches_lem chars value = is_empty-hits_from chars (collect_strings value)

module _ (p : Text → Bool) where
  join :
      (a b : List Text) → any_text p a ≡ false → any_text p b ≡ false → any_text p (a ++ b) ≡ false
  join a b ha hb = rw (any_text-append p a b, ha) hb

  pub split :
      (a b : List Text)
      → any_text p (a ++ b) ≡ false
      → (any_text p a ≡ false) × (any_text p b ≡ false)
  split a b h = ground (arith, any_text-append p a b)

  -- What holds of no text of a value holds of no text of what is left of it.
  mutual
    unfolding strip_value collect_strings

    pub any_text-strip_value :
        (path : Text) (v : Json)
        → any_text p (collect_strings v) ≡ false
        → any_text p (collect_strings (strip_value path v)) ≡ false
    any_text-strip_value path null h = h
    any_text-strip_value path (boolean b) h = h
    any_text-strip_value path (integer n) h = h
    any_text-strip_value path (float n) h = h
    any_text-strip_value path (string s) h = h
    any_text-strip_value path (array xs) h = any_text-strip_elements path xs h
    any_text-strip_value path (object ms) h = any_text-strip_members path ms h

    any_text-strip_elements :
        (path : Text) (xs : Elements)
        → any_text p (collect_elements xs) ≡ false
        → any_text p (collect_elements (strip_elements path xs)) ≡ false
    any_text-strip_elements path nil h = h
    any_text-strip_elements path (cons x xs) h =
        let (first, rest) = split (collect_strings x) (collect_elements xs) h in
        join _ _ (any_text-strip_value path x first) (any_text-strip_elements path xs rest)

    any_text-strip_members :
        (path : Text) (ms : Members)
        → any_text p (collect_members ms) ≡ false
        → any_text p (collect_members (strip_members path ms)) ≡ false
    any_text-strip_members path end h = h
    any_text-strip_members path (member key item ms) h =
        let (first, rest) = split (collect_strings item) (collect_members ms) h in
        let left = any_text-strip_members path ms rest in
        elim (Bool-cases (is_dropped path key item)) [
          | inl dropped ↦ rw dropped left
          | inr kept ↦
              rw kept (join _ _ (any_text-strip_value (child_path path key) item first) left)
        ]
