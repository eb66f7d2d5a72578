-- ===== src/Workflows/Lint.antt =====
-- scripts/lint_workflows.py: the issues of a workflow document. The message of an issue is a
-- constructor; the label of the node in it is left out, since the path tells the node.
pub mod Rules
pub mod Issues
pub mod Command
pub mod Laws
use n8n_production_systems.Json.{
  Json, null, boolean, integer, float, string, array, object, Elements, nil, cons, Members, end,
  member, field, lookup, count,
}
use n8n_production_systems.Text.{Text, codes, text_eq}
use n8n_production_systems.Text.Contains.{is_in, is_member}
use n8n_production_systems.Text.Show.{show}
use n8n_production_systems.Regex.{matches_any}
use n8n_production_systems.Workflows.Values.{Python, text_or_empty}
use n8n_production_systems.Text.Lines.{unix}
use n8n_production_systems.Workflows.Snippets.{first_line, snippet_name, is_bad_name, code_type}
use n8n_production_systems.Workflows.Sanitize.Secrets.{Hit, find_secret_matches}
use Issues.{
  Problem, pin_data, node_pin_data, missing_error_workflow, too_many_nodes, default_name,
  missing_timeout, invalid_snippet, missing_snippet, different_snippet, hardcoded_url, secret,
  no_workflow, Issue, max_nodes, issue, issue_if, indexed, scan_urls, is_blank, error_workflow,
  nodes_of,
}
use n8n_production_systems.Json.{has_key}
use Rules.{
  code_body, timeout_is_set, is_settings_lookup_node, has_literal_http_url, default_node_name,
  http_request_types,
}
use n8n_production_systems.Common.{
  ℕ, suc, ◌+◌, Bool, true, false, not, ◌&&◌, ◌||◌, Option, none, some, if◌then◌else◌, List, [], ◌∷◌,
  ◌++◌, map, Outcome, ok, raises, ◌>>=◌, ltb,
}

module _ (py : Python) (snippets : Text → Option Text) where
  unfoldable pub compare_snippet : Text → Text → Text → Option Text → List Issue
  compare_snippet body path name none = issue path (missing_snippet name) ∷ []
  compare_snippet body path name (some file) =
      issue_if (not (text_eq (unix body) (unix file))) path (different_snippet name)

  unfoldable pub named_issues : Text → Text → Option Text → List Issue
  unfolding compare_snippet
  named_issues body path none = []
  named_issues body path (some name) =
      if is_bad_name name
      then issue path (invalid_snippet name) ∷ []
      else compare_snippet body path name (snippets name)

  -- `_snippet_issues`, behind the body
  unfoldable pub body_issues : Text → Text → List Issue
  unfolding named_issues
  body_issues body path = named_issues body path (snippet_name py.chars (first_line body))

  unfoldable pub snippet_issues : Members → Text → Outcome (List Issue)
  snippet_issues node path = do body ← code_body py node; ok (body_issues body path)

  unfoldable pub timeout_issues : Members → Text → Text → Outcome (List Issue)
  timeout_issues node kind path =
      if is_member kind http_request_types
      then (do set ← timeout_is_set py node; ok (issue_if (not set) path missing_timeout))
      else ok []

  unfoldable pub url_issues : Members → Text → Outcome (List Issue)
  url_issues node path = do
    lookup_node ← is_settings_lookup_node py node
    ok (
        if lookup_node
        then []
        else scan_urls py (field node (codes "parameters")) (path ++ codes ".parameters"))

  -- the body of the loop over the nodes
  unfoldable pub lint_node : Members → Text → Outcome (List Issue)
  unfolding has_key snippet_issues timeout_issues url_issues
  lint_node node path =
      let name = text_or_empty py (field node (codes "name")) in
      let kind = text_or_empty py (field node (codes "type")) in
      do
        timeouts ← timeout_issues node kind path
        bodies ← (if text_eq kind code_type then snippet_issues node path else ok [])
        urls ← url_issues node path
        ok (
            issue_if (has_key node (codes "pinData")) path node_pin_data
            ++ issue_if (matches_any py.chars (default_node_name py.chars) false name) path
                default_name
            ++ timeouts
            ++ bodies
            ++ urls)

  unfoldable pub lint_item : Json → Text → Outcome (List Issue)
  unfolding lint_node
  lint_item (object node) path = lint_node node path
  lint_item _ path = ok []

  unfoldable pub lint_nodes : Elements → Text → ℕ → Outcome (List Issue)
  unfolding lint_item
  lint_nodes nil path index = ok []
  lint_nodes (cons v nodes) path index = do
    first ← lint_item v (indexed (path ++ codes ".nodes") index)
    rest ← lint_nodes nodes path (suc index)
    ok (first ++ rest)

  unfoldable pub lint_workflow : Members → Text → Outcome (List Issue)
  unfolding has_key is_blank error_workflow nodes_of lint_nodes
  lint_workflow workflow path =
      let name = text_or_empty py (field workflow (codes "name")) in
      let nodes = nodes_of (field workflow (codes "nodes")) in
      let no_error =
        is_blank (error_workflow (field workflow (codes "settings")))
        && not (is_in (codes "Error Handler") name) in
      do
        found ← lint_nodes nodes path 0
        ok (
            issue_if (has_key workflow (codes "pinData")) path pin_data
            ++ issue_if no_error path missing_error_workflow
            ++ issue_if (ltb max_nodes (count nodes)) path (too_many_nodes (count nodes))
            ++ found
            ++ map (λ hit. issue path (secret hit))
                (find_secret_matches py.chars (object workflow)))

  -- whether an entry of a list is a workflow, and its issues
  unfoldable pub lint_entry : Json → Text → Outcome (Bool × List Issue)
  lint_entry (object workflow) path = do issues ← lint_workflow workflow path; ok (true, issues)
  lint_entry _ path = ok (false, [])

  unfoldable pub lint_items : Elements → Text → ℕ → Outcome (Bool × List Issue)
  unfolding lint_entry
  lint_items nil path index = ok (false, [])
  lint_items (cons v items) path index = do
    first ← lint_entry v (indexed path index)
    rest ← lint_items items path (suc index)
    ok (first.0 || rest.0, first.1 ++ rest.1)

  unfoldable pub lint_found : Bool → List Issue → Text → List Issue
  lint_found true issues path = issues
  lint_found false issues path = issues ++ issue path no_workflow ∷ []

  -- The issues of the workflows that the document holds; a document that holds none has one.
  unfoldable pub lint_document : Json → Text → Outcome (List Issue)
  unfolding lint_workflow lint_items lint_found
  lint_document (object workflow) path = lint_workflow workflow path
  lint_document (array items) path = do
    found ← lint_items items path 0
    ok (lint_found (found.0) (found.1) path)
  lint_document _ path = ok (issue path no_workflow ∷ [])
