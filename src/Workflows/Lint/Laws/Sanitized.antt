-- ===== src/Workflows/Lint/Laws/Sanitized.antt =====
-- What the sanitiser removes is never reported by the linter.
use n8n_production_systems.Json.{
  Json, null, boolean, integer, float, string, array, object, Elements, nil, cons, Members, end,
  member, field, lookup, or_null,
}
use n8n_production_systems.Text.{Text, codes, is_empty, text_eq}
use n8n_production_systems.Text.Equality.{text_eq_iff}
use n8n_production_systems.Text.Contains.{is_member}
use n8n_production_systems.Workflows.Values.{Python}
use n8n_production_systems.Workflows.Sanitize.{sanitize_document, is_dropped, child_path}
use n8n_production_systems.Workflows.Sanitize.Secrets.{
  Hit, find_secret_matches, collect_strings, collect_elements,
}
use n8n_production_systems.Workflows.Sanitize.Laws.{sanitize_document-Clean}
use n8n_production_systems.Workflows.Sanitize.Laws.Dropped.{Clean, CleanElements, CleanMembers}
use n8n_production_systems.Workflows.Sanitize.Laws.Refused.{
  any_text, has_secret, find_secret_matches_lem, split,
}
use n8n_production_systems.Workflows.Lint.Issues.{
  Problem, pin_data, node_pin_data, secret, Issue, issue_if, nodes_of,
}
use n8n_production_systems.Json.{has_key}
use n8n_production_systems.Workflows.Lint.{lint_node, lint_document}
use n8n_production_systems.Workflows.Lint.Laws.Reports.{
  Free, AllObjects, Quiet, QuietDocument, lint_document-Free,
}
use n8n_production_systems.Workflows.Lint.Laws.Nodes.{lint_node-Free, node_bodies-Free}
use n8n_production_systems.Common.{
  ◌≡◌, refl, Bool, true, false, Option, List, [], ◌∷◌, ok, arith, All, subst, Bool-cases, inl, inr,
}

-- The problems that the sanitiser takes care of.
unfoldable pub is_removed : Problem → Bool
is_removed pin_data = true
is_removed node_pin_data = true
is_removed (secret hit) = true
is_removed _ = false

kept_key :
    (path key : Text) (item : Json)
    → is_dropped path key item ≡ false
    → text_eq key (codes "pinData") ≡ false
unfolding is_dropped is_member
kept_key path key item h = ground arith

no_pin_data :
    (path : Text) (ms : Members) → CleanMembers path ms → has_key ms (codes "pinData") ≡ false
unfolding Clean has_key lookup
no_pin_data path end h = refl
no_pin_data path (member key item ms) (kept, inner, rest) =
    rw (kept_key path key item kept) (no_pin_data path ms rest)

field-Clean :
    (path key : Text) (ms : Members)
    → CleanMembers path ms
    → Clean (child_path path key) (field ms key)
unfolding Clean field lookup or_null
field-Clean path key end h = tt
field-Clean path key (member k item ms) (kept, inner, rest) = elim (Bool-cases (text_eq k key)) [
  | inl same ↦
      let eq : k ≡ key = (text_eq_iff k key).0 same in
      rw same (subst (λ x. Clean (child_path path x) item) eq inner)
  | inr different ↦ rw different (field-Clean path key ms rest)
]

-- A node of a document without an item to drop.
abbrev CleanNode : Members → Type 0
CleanNode node = (path : Text) × CleanMembers path node

elements-Clean : (path : Text) (xs : Elements) → CleanElements path xs → AllObjects CleanNode xs
unfolding Clean
elements-Clean path nil h = tt
elements-Clean path (cons (object ms) xs) h = ((path, h.0), elements-Clean path xs h.1)
elements-Clean path (cons null xs) h = elements-Clean path xs h.1
elements-Clean path (cons (boolean b) xs) h = elements-Clean path xs h.1
elements-Clean path (cons (integer n) xs) h = elements-Clean path xs h.1
elements-Clean path (cons (float n) xs) h = elements-Clean path xs h.1
elements-Clean path (cons (string s) xs) h = elements-Clean path xs h.1
elements-Clean path (cons (array ys) xs) h = elements-Clean path xs h.1

nodes_of-Clean : (path : Text) (v : Json) → Clean path v → AllObjects CleanNode (nodes_of v)
unfolding nodes_of Clean
nodes_of-Clean path (array xs) h = elements-Clean path xs h
nodes_of-Clean path null h = tt
nodes_of-Clean path (boolean b) h = tt
nodes_of-Clean path (integer n) h = tt
nodes_of-Clean path (float n) h = tt
nodes_of-Clean path (string s) h = tt
nodes_of-Clean path (object ms) h = tt

none_of_empty : (hits : List Hit) → is_empty hits ≡ true → hits ≡ []
none_of_empty [] h = refl
none_of_empty (hit ∷ hits) h = cc

module _ (py : Python) (snippets : Text → Option Text) where
  abbrev Silent : Json → Type 0
  Silent v = any_text (has_secret py.chars) (collect_strings v) ≡ false

  hits_none : (v : Json) → Silent v → find_secret_matches py.chars v ≡ []
  hits_none v h = none_of_empty _ (rw (find_secret_matches_lem py.chars v, h) refl)

  node-Free :
      (node : Members) (path : Text) (issues : List Issue)
      → CleanNode node
      → lint_node py snippets node path ≡ ok issues
      → Free is_removed issues
  unfolding is_removed issue_if
  node-Free node path issues (at, clean) h =
      lint_node-Free py snippets is_removed node path issues (rw (no_pin_data at node clean) tt)
        (refl, refl, refl)
        (node_bodies-Free py snippets is_removed (λ name. (refl, refl, refl)) node path _) h

  workflow-Quiet :
      (at : Text) (workflow : Members)
      → CleanMembers at workflow
      → Silent (object workflow)
      → Quiet py is_removed CleanNode workflow
  unfolding issue_if
  workflow-Quiet at workflow clean plain = (
    λ path. rw (no_pin_data at workflow clean) tt,
    λ path. rw (hits_none (object workflow) plain) tt,
    nodes_of-Clean (child_path at (codes "nodes")) _
        (field-Clean at (codes "nodes") workflow clean),
  )

  items-Quiet :
      (at : Text) (xs : Elements)
      → CleanElements at xs
      → any_text (has_secret py.chars) (collect_elements xs) ≡ false
      → AllObjects (Quiet py is_removed CleanNode) xs
  unfolding collect_strings Clean
  items-Quiet at nil clean plain = tt
  items-Quiet at (cons (object ms) xs) clean plain =
      let (first, rest) = split _ (collect_strings (object ms)) (collect_elements xs) plain in
      (workflow-Quiet at ms (clean.0) first, items-Quiet at xs (clean.1) rest)
  items-Quiet at (cons null xs) clean plain = items-Quiet at xs (clean.1) plain
  items-Quiet at (cons (boolean b) xs) clean plain = items-Quiet at xs (clean.1) plain
  items-Quiet at (cons (integer n) xs) clean plain = items-Quiet at xs (clean.1) plain
  items-Quiet at (cons (float n) xs) clean plain = items-Quiet at xs (clean.1) plain
  items-Quiet at (cons (string s) xs) clean plain =
      items-Quiet at xs (clean.1) (split _ (s ∷ []) (collect_elements xs) plain).1
  items-Quiet at (cons (array ys) xs) clean plain =
      items-Quiet at xs (clean.1) (split _ (collect_elements ys) (collect_elements xs) plain).1

  document-Quiet :
      (document : Json)
      → Clean [] document
      → Silent document
      → QuietDocument py is_removed CleanNode document
  unfolding collect_strings Clean
  document-Quiet (object workflow) clean plain = workflow-Quiet [] workflow clean plain
  document-Quiet (array items) clean plain = items-Quiet [] items clean plain
  document-Quiet null clean plain = tt
  document-Quiet (boolean b) clean plain = tt
  document-Quiet (integer n) clean plain = tt
  document-Quiet (float n) clean plain = tt
  document-Quiet (string s) clean plain = tt

-- The linter reports no pinned data and no secret in a document that the sanitiser gave back.
pub lint_document-sanitize_document :
    (py : Python) (snippets : Text → Option Text) (value out : Json) (path : Text)
    → (issues : List Issue) → sanitize_document py.chars value ≡ ok out
    → lint_document py snippets out path ≡ ok issues
    → All (λ i. is_removed i.problem ≡ false) issues
unfolding is_removed
lint_document-sanitize_document py snippets value out path issues sanitized linted =
    let (clean, plain, again) = sanitize_document-Clean py.chars value out sanitized in
    lint_document-Free py snippets is_removed CleanNode (node-Free py snippets)
      (refl, λ n. refl, refl) out path issues (document-Quiet py snippets out clean plain) linted
