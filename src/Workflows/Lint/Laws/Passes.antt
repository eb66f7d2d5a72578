-- ===== src/Workflows/Lint/Laws/Passes.antt =====
-- What a workflow without an issue is like.
use n8n_production_systems.Json.{
  Json, null, boolean, integer, float, string, array, object, Elements, nil, cons, Members, field,
  count,
}
use n8n_production_systems.Text.{Text, codes, text_eq, is_empty}
use n8n_production_systems.Text.Contains.{is_member, is_in}
use n8n_production_systems.Regex.{matches_any}
use n8n_production_systems.Workflows.Values.{Python, text_or_empty}
use n8n_production_systems.Workflows.Snippets.{code_type, snippet_name, first_line, is_bad_name}
use n8n_production_systems.Text.Lines.{unix}
use n8n_production_systems.Text.Equality.{text_eq_iff}
use n8n_production_systems.Workflows.Sanitize.Secrets.{Hit, find_secret_matches, collect_strings}
use n8n_production_systems.Workflows.Sanitize.Laws.Refused.{
  any_text, has_secret, find_secret_matches_lem,
}
use n8n_production_systems.Workflows.Lint.Issues.{
  Problem, pin_data, node_pin_data, missing_error_workflow, too_many_nodes, default_name,
  missing_timeout, different_snippet, invalid_snippet, issue, Issue, issue_if, indexed, nodes_of,
  is_blank, error_workflow, max_nodes, scan_urls,
}
use n8n_production_systems.Json.{has_key}
use n8n_production_systems.Workflows.Lint.Rules.{
  has_literal_http_url, http_request_types, timeout_is_set, is_settings_lookup_node, code_body,
  default_node_name,
}
use n8n_production_systems.Workflows.Lint.{
  lint_node, lint_item, lint_nodes, lint_workflow, snippet_issues, body_issues, named_issues,
  compare_snippet, timeout_issues, url_issues,
}
use n8n_production_systems.Workflows.Lint.Laws.Reports.{AllObjects, ok_injective}
use n8n_production_systems.Workflows.Lint.Laws.Urls.{scan_urls_lem}
use n8n_production_systems.Common.{
  ℕ, suc, ◌≤◌, ◌≡◌, refl, Bool, true, false, not, Option, none, some, Bool-cases, List, [], ◌∷◌,
  ◌++◌, map, ok, arith, if◌then◌else◌, bind_ok, inl, inr, ◌⊎◌, ◌&&◌, not_ltb→le,
}

nothing_left {ℓ} : {A : Type ℓ} (xs ys : List A) → xs ++ ys ≡ [] → (xs ≡ []) × (ys ≡ [])
nothing_left [] ys h = (refl, h)
nothing_left (x ∷ xs) ys h = cc

issue_if_none :
    (b : Bool) (path : Text) (problem : Problem) → issue_if b path problem ≡ [] → b ≡ false
unfolding issue_if
issue_if_none true path problem h = cc
issue_if_none false path problem h = refl

handled : (blank named : Bool) → (blank && not named) ≡ false → (blank ≡ false) ⊎ (named ≡ true)
handled true true h = inr refl
handled true false h = cc
handled false named h = inl refl

map_none : (f : Hit → Issue) (hits : List Hit) → map f hits ≡ [] → is_empty hits ≡ true
map_none f [] h = refl
map_none f (hit ∷ hits) h = cc

module _ (py : Python) (snippets : Text → Option Text) where
  -- A request has a timeout.
  abbrev pub Timed : Members → Type 0
  Timed node =
      is_member (text_or_empty py (field node (codes "type"))) http_request_types ≡ true
      → timeout_is_set py node ≡ ok true

  -- A node that does not look up a setting has no literal address in its parameters.
  abbrev pub Addressed : Members → Type 0
  Addressed node =
      is_settings_lookup_node py node ≡ ok false
      → any_text (has_literal_http_url py.chars) (collect_strings (field node (codes "parameters")))
        ≡ false

  -- A body whose first line names a snippet has a good name there, and is the text of its file up to
  -- the ends of the lines.
  abbrev pub Copied : Text → Type 0
  Copied body =
      (snippet_name py.chars (first_line body) ≡ none)
      ⊎ ((name : Text) × (file : Text) × (snippet_name py.chars (first_line body) ≡ some name)
          × (is_bad_name name ≡ false)
          × (snippets name ≡ some file)
          × (unix body ≡ unix file))

  -- The body of a Code node is as its snippet says.
  abbrev pub CodeCopied : Members → Type 0
  CodeCopied node =
      text_eq (text_or_empty py (field node (codes "type"))) code_type ≡ true
      → (body : Text) × (code_body py node ≡ ok body) × Copied body

  -- What the rules ask of a node.
  abbrev pub NodePasses : Members → Type 0
  NodePasses node =
      (has_key node (codes "pinData") ≡ false)
      × (matches_any py.chars (default_node_name py.chars) false
            (text_or_empty py (field node (codes "name")))
          ≡ false)
      × Timed node
      × CodeCopied node
      × Addressed node

  timeouts_pass :
      (node : Members) (path : Text)
      → timeout_issues py snippets node (text_or_empty py (field node (codes "type"))) path ≡ ok []
      → Timed node
  unfolding timeout_issues
  timeouts_pass node path h request =
      let (set, run, last) = bind_ok (timeout_is_set py node) _ [] (rw request at h) in
      let on : not set ≡ false = issue_if_none (not set) path missing_timeout (ok_injective last) in
      ground arith

  compare_passes :
      (body path name : Text) (found : Option Text)
      → compare_snippet py snippets body path name found ≡ []
      → (file : Text) × (found ≡ some file) × (unix body ≡ unix file)
  unfolding compare_snippet
  compare_passes body path name none h = cc
  compare_passes body path name (some file) h =
      let differs = text_eq (unix body) (unix file) in
      let same : not differs ≡ false =
        issue_if_none (not differs) path (different_snippet name) h in
      (file, refl, (text_eq_iff (unix body) (unix file)).0 (ground arith))

  body_passes :
      (body path : Text) (marked : Option Text)
      → snippet_name py.chars (first_line body) ≡ marked
      → named_issues py snippets body path marked ≡ []
      → Copied body
  unfolding named_issues
  body_passes body path none at h = inl at
  body_passes body path (some name) at h = elim (Bool-cases (is_bad_name name)) [
    | inl bad ↦ let wrong : issue path (invalid_snippet name) ∷ [] ≡ [] = rw bad at h in absurd (cc)
    | inr good ↦
        let (file, found, same) = compare_passes body path name (snippets name) (rw good at h) in
        inr (name, file, at, good, found, same)
  ]

  code_passes :
      (node : Members) (path : Text)
      → (if text_eq (text_or_empty py (field node (codes "type"))) code_type
          then snippet_issues py snippets node path
          else ok [])
        ≡ ok []
      → CodeCopied node
  unfolding snippet_issues body_issues
  code_passes node path h is_code =
      let (body, read, last) = bind_ok (code_body py node) _ [] (rw is_code at h) in
      (body, read, body_passes body path _ refl (ok_injective last))

  urls_pass :
      (node : Members) (path : Text) → url_issues py snippets node path ≡ ok [] → Addressed node
  unfolding url_issues
  urls_pass node path h ordinary =
      let (skip, run, last) = bind_ok (is_settings_lookup_node py node) _ [] h in
      let scanned : scan_urls py (field node (codes "parameters")) (path ++ codes ".parameters")
          ≡ [] =
        ground arith in
      ground
        (arith, scan_urls_lem py (field node (codes "parameters")) (path ++ codes ".parameters"))

  lint_node_passes :
      (node : Members) (path : Text) → lint_node py snippets node path ≡ ok [] → NodePasses node
  unfolding lint_node
  lint_node_passes node path h =
      let kind = text_or_empty py (field node (codes "type")) in
      let name = text_or_empty py (field node (codes "name")) in
      let is_default = matches_any py.chars (default_node_name py.chars) false name in
      let (timeouts, run_timeouts, more) =
        bind_ok (timeout_issues py snippets node kind path) _ [] h in
      let (bodies, run_bodies, most) =
        bind_ok (if text_eq kind code_type then snippet_issues py snippets node path else ok []) _
          [] more in
      let (urls, run_urls, last) = bind_ok (url_issues py snippets node path) _ [] most in
      let (before_urls, no_urls) = nothing_left _ urls (ok_injective last) in
      let (before_bodies, no_bodies) = nothing_left _ bodies before_urls in
      let (before_timeouts, no_timeouts) = nothing_left _ timeouts before_bodies in
      let (no_pins, no_default) = nothing_left _ _ before_timeouts in
      (
        issue_if_none (has_key node (codes "pinData")) path node_pin_data no_pins,
        issue_if_none is_default path default_name no_default,
        timeouts_pass node path (rw no_timeouts at run_timeouts),
        code_passes node path (rw no_bodies at run_bodies),
        urls_pass node path (rw no_urls at run_urls),
      )

  item_passes :
      (v : Json) (xs : Elements) (path : Text)
      → lint_item py snippets v path ≡ ok []
      → AllObjects NodePasses xs
      → AllObjects NodePasses (cons v xs)
  unfolding lint_item
  item_passes (object node) xs path h rest = (lint_node_passes node path h, rest)
  item_passes null xs path h rest = rest
  item_passes (boolean b) xs path h rest = rest
  item_passes (integer n) xs path h rest = rest
  item_passes (float n) xs path h rest = rest
  item_passes (string s) xs path h rest = rest
  item_passes (array ys) xs path h rest = rest

  lint_nodes_passes :
      (xs : Elements) (path : Text) (index : ℕ)
      → lint_nodes py snippets xs path index ≡ ok []
      → AllObjects NodePasses xs
  unfolding lint_nodes
  lint_nodes_passes nil path index h = tt
  lint_nodes_passes (cons v xs) path index h =
      let here = indexed (path ++ codes ".nodes") index in
      let (first, item, more) = bind_ok (lint_item py snippets v here) _ [] h in
      let (rest, items, last) = bind_ok (lint_nodes py snippets xs path (suc index)) _ [] more in
      let (no_first, no_rest) = nothing_left first rest (ok_injective last) in
      item_passes v xs here (rw no_first at item)
        (lint_nodes_passes xs path (suc index) (rw no_rest at items))

  -- What the rules ask of a workflow.
  abbrev pub WorkflowPasses : Members → Type 0
  WorkflowPasses workflow =
      (has_key workflow (codes "pinData") ≡ false)
      × ((is_blank (error_workflow (field workflow (codes "settings"))) ≡ false)
          ⊎ (is_in (codes "Error Handler") (text_or_empty py (field workflow (codes "name")))
              ≡ true))
      × (count (nodes_of (field workflow (codes "nodes"))) ≤ max_nodes)
      × AllObjects NodePasses (nodes_of (field workflow (codes "nodes")))
      × (any_text (has_secret py.chars) (collect_strings (object workflow)) ≡ false)

  no_secret :
      (v : Json)
      → is_empty (find_secret_matches py.chars v) ≡ true
      → any_text (has_secret py.chars) (collect_strings v) ≡ false
  no_secret v h = ground (arith, find_secret_matches_lem py.chars v)

  -- A workflow without an issue has no pinned data, names an error workflow unless its name marks it
  -- as an error handler, has at most 40 nodes, and no text in it matches a secret pattern. None of
  -- its nodes has pinned data or a default name, each request has a timeout, the body of a Code node
  -- whose first line names a snippet has a good name there and the text of that snippet file, and a
  -- node that does not look up a setting has no literal address in its parameters.
  pub lint_workflow-passes :
      (workflow : Members) (path : Text)
      → lint_workflow py snippets workflow path ≡ ok []
      → WorkflowPasses workflow
  unfolding lint_workflow
  lint_workflow-passes workflow path h =
      let nodes = nodes_of (field workflow (codes "nodes")) in
      let (found, run, last) = bind_ok (lint_nodes py snippets nodes path 0) _ [] h in
      let (before_secrets, no_secrets) = nothing_left _ _ (ok_injective last) in
      let (before_nodes, no_found) = nothing_left _ found before_secrets in
      let (before_size, no_size) = nothing_left _ _ before_nodes in
      let (no_pins, no_error) = nothing_left _ _ before_size in
      (
        issue_if_none _ path pin_data no_pins,
        handled _ _ (issue_if_none _ path missing_error_workflow no_error),
        not_ltb→le 40 _ (issue_if_none _ path (too_many_nodes _) no_size),
        lint_nodes_passes nodes path 0 (rw no_found at run),
        no_secret (object workflow) (map_none _ _ no_secrets),
      )
