-- ===== src/Workflows/Lint/Laws/Nodes.antt =====
-- A kind of problem is reported of no node if no rule about the node reports it.
use n8n_production_systems.Json.{
  Json, null, boolean, integer, float, string, array, object, Elements, nil, cons, Members, end,
  member, field,
}
use n8n_production_systems.Text.{Text, codes, text_eq}
use n8n_production_systems.Text.Contains.{is_member}
use n8n_production_systems.Regex.{matches_any}
use n8n_production_systems.Workflows.Values.{Python, text_or_empty}
use n8n_production_systems.Text.Lines.{unix}
use n8n_production_systems.Workflows.Snippets.{code_type, first_line, snippet_name, is_bad_name}
use n8n_production_systems.Workflows.Lint.Issues.{
  Problem, node_pin_data, default_name, missing_timeout, hardcoded_url, invalid_snippet,
  missing_snippet, different_snippet, Issue, issue, issue_if, indexed, scan_urls, scan_items,
  scan_members,
}
use n8n_production_systems.Json.{has_key}
use n8n_production_systems.Workflows.Lint.Rules.{
  code_body, has_literal_http_url, http_request_types, timeout_is_set, is_settings_lookup_node,
  default_node_name,
}
use n8n_production_systems.Workflows.Lint.{
  lint_node, snippet_issues, compare_snippet, named_issues, body_issues, timeout_issues, url_issues,
}
use n8n_production_systems.Workflows.Lint.Laws.Reports.{Free, Free-issue_if, ok_injective, moved}
use n8n_production_systems.Common.{
  ℕ, suc, ◌≡◌, Bool, true, false, not, Option, none, some, List, [], ◌++◌, ok, arith, if◌then◌else◌,
  All-append, bind_ok, subst, Bool-cases, inl, inr,
}

module _ (py : Python) (bad : Problem → Bool) (allowed : bad hardcoded_url ≡ false) where
  mutual
    unfolding scan_urls

    pub Free-scan_urls : (v : Json) (path : Text) → Free bad (scan_urls py v path)
    Free-scan_urls null path = tt
    Free-scan_urls (boolean b) path = tt
    Free-scan_urls (integer n) path = tt
    Free-scan_urls (float n) path = tt
    Free-scan_urls (string s) path =
        Free-issue_if bad (has_literal_http_url py.chars s) path hardcoded_url allowed
    Free-scan_urls (array xs) path = Free-scan_items xs path 0
    Free-scan_urls (object ms) path = Free-scan_members ms path

    Free-scan_items :
        (xs : Elements) (path : Text) (index : ℕ) → Free bad (scan_items py xs path index)
    Free-scan_items nil path index = tt
    Free-scan_items (cons x xs) path index =
        All-append _ _ _ (Free-scan_urls x (indexed path index))
          (Free-scan_items xs path (suc index))

    Free-scan_members : (ms : Members) (path : Text) → Free bad (scan_members py ms path)
    Free-scan_members end path = tt
    Free-scan_members (member key item ms) path =
        All-append _ _ _ (Free-scan_urls item (path ++ codes "." ++ key))
          (Free-scan_members ms path)

module _ (py : Python) (snippets : Text → Option Text) (bad : Problem → Bool) where
  module _
      (allowed : (name : Text)
        → (bad (invalid_snippet name) ≡ false)
          × (bad (missing_snippet name) ≡ false)
          × (bad (different_snippet name) ≡ false)) where
    Free-compare_snippet :
        (body path name : Text) (file : Option Text)
        → Free bad (compare_snippet py snippets body path name file)
    unfolding compare_snippet issue
    Free-compare_snippet body path name none = ((allowed name).1, tt)
    Free-compare_snippet body path name (some file) =
        Free-issue_if bad (not (text_eq (unix body) (unix file))) path (different_snippet name)
          ((allowed name).2)

    Free-named_issues :
        (body path : Text) (found : Option Text)
        → Free bad (named_issues py snippets body path found)
    unfolding named_issues issue
    Free-named_issues body path none = tt
    Free-named_issues body path (some name) = elim (Bool-cases (is_bad_name name)) [
      | inl refused ↦ rw refused ((allowed name).0, tt)
      | inr good ↦ rw good (Free-compare_snippet body path name (snippets name))
    ]

    pub Free-body_issues : (body path : Text) → Free bad (body_issues py snippets body path)
    unfolding body_issues
    Free-body_issues body path =
        Free-named_issues body path (snippet_name py.chars (first_line body))

    -- the same of what a node of any type comes to
    pub node_bodies-Free :
        (node : Members) (path : Text) (is_code : Bool) (found : List Issue)
        → (if is_code then snippet_issues py snippets node path else ok []) ≡ ok found
        → Free bad found
    unfolding snippet_issues
    node_bodies-Free node path true found h =
        let (body, run, last) = bind_ok (code_body py node) _ found h in
        subst (Free bad) (ok_injective last) (Free-body_issues body path)
    node_bodies-Free node path false found h = moved bad [] found (ok_injective h) tt

  timeout_issues-Free :
      (node : Members) (kind path : Text) (issues : List Issue)
      → bad missing_timeout ≡ false
      → timeout_issues py snippets node kind path ≡ ok issues
      → Free bad issues
  unfolding timeout_issues
  timeout_issues-Free node kind path issues good h =
      elim (Bool-cases (is_member kind http_request_types)) [
        | inl request ↦
            let (set, run, last) = bind_ok (timeout_is_set py node) _ issues (rw request at h) in
            subst (Free bad) (ok_injective last)
              (Free-issue_if bad (not set) path missing_timeout good)
        | inr other ↦ moved bad [] issues (ground arith) tt
      ]

  url_part :
      (skip : Bool) (found : List Issue) → Free bad found → Free bad (if skip then [] else found)
  url_part true found h = tt
  url_part false found h = h

  url_issues-Free :
      (node : Members) (path : Text) (issues : List Issue)
      → bad hardcoded_url ≡ false
      → url_issues py snippets node path ≡ ok issues
      → Free bad issues
  unfolding url_issues
  url_issues-Free node path issues good h =
      let (lookup_node, run, last) = bind_ok (is_settings_lookup_node py node) _ issues h in
      subst (Free bad) (ok_injective last) (
        url_part lookup_node (scan_urls py (field node (codes "parameters")) _)
          (Free-scan_urls py bad good (field node (codes "parameters")) _))

  -- What the rules about one node come to.
  pub lint_node-Free :
      (node : Members) (path : Text) (issues : List Issue)
      → Free bad (issue_if (has_key node (codes "pinData")) path node_pin_data)
      → (bad default_name ≡ false) × (bad missing_timeout ≡ false) × (bad hardcoded_url ≡ false)
      → ((found : List Issue)
          → (if text_eq (text_or_empty py (field node (codes "type"))) code_type
              then snippet_issues py snippets node path
              else ok [])
            ≡ ok found
          → Free bad found)
      → lint_node py snippets node path ≡ ok issues
      → Free bad issues
  unfolding lint_node
  lint_node-Free node path issues pins (name_ok, timeout_ok, url_ok) bodies_ok h =
      let name = text_or_empty py (field node (codes "name")) in
      let kind = text_or_empty py (field node (codes "type")) in
      let (timeouts, run_timeouts, more) =
        bind_ok (timeout_issues py snippets node kind path) _ issues h in
      let (bodies, run_bodies, most) =
        bind_ok (if text_eq kind code_type then snippet_issues py snippets node path else ok []) _
          issues more in
      let (urls, run_urls, last) = bind_ok (url_issues py snippets node path) _ issues most in
      let is_default = matches_any py.chars (default_node_name py.chars) false name in
      let head = All-append _ _ _ pins (Free-issue_if bad is_default path default_name name_ok) in
      let upto =
        All-append _ _ _ head
          (timeout_issues-Free node kind path timeouts timeout_ok run_timeouts) in
      let body = All-append _ _ _ upto (bodies_ok bodies run_bodies) in
      subst (Free bad) (ok_injective last)
        (All-append _ _ _ body (url_issues-Free node path urls url_ok run_urls))
