-- ===== src/Workflows/Tests.antt =====
-- The theorems at a document with one Code node.
use n8n_production_systems.Json.{field, set_member, count, lookup, or_null}
use n8n_production_systems.Text.{Text, codes, text_eq, starts_with}
use n8n_production_systems.Regex.{search, matches, matches_any}
use n8n_production_systems.Text.Ascii.{ascii}
use n8n_production_systems.Text.Equality.{text_eq_iff}
use n8n_production_systems.Workflows.Values.{text_or_empty, is_positive, truth}
use n8n_production_systems.Text.Lines.{unix}
use n8n_production_systems.Workflows.Snippets.{
  first_line, snippet_name, ends_newline, is_bad_name, behind,
}
use n8n_production_systems.Workflows.Snippets.Sync.{sync_document, with_newline}
use n8n_production_systems.Workflows.Snippets.Laws.Bodies.{SelfMarked, NoReturn}
use n8n_production_systems.Workflows.Sanitize.{
  sanitize_document, strip_value, is_dropped, ends_with, child_path,
}
use n8n_production_systems.Workflows.Lint.{
  lint_document, body_issues, compare_snippet, lint_entry, lint_found, lint_item, lint_items,
  lint_node, lint_nodes, lint_workflow, named_issues, snippet_issues, timeout_issues, url_issues,
}
use n8n_production_systems.Common.{
  ◌≡◌, refl, true, false, Option, some, [], ◌∷◌, ok, Bool-cases, inl, inr, arith, All,
}
use n8n_production_systems.Text.Contains.{is_member, is_in}
use n8n_production_systems.Workflows.Lint.Rules.{
  code_body, is_settings_lookup_node, timeout_is_set, default_node_name, as_object, code_under,
  expression_body, has_literal_http_url, http_timeout, is_set_timeout, parameters_of, text_or,
}
use n8n_production_systems.Workflows.Sanitize.Secrets.{
  hits_from, find_secret_matches, collect_strings, hits_of, secret_patterns,
}
use n8n_production_systems.Text.Strip.{lstrip, strip}
use n8n_production_systems.Workflows.Lint.Issues.{
  issue_if, error_workflow, indexed, is_blank, issue, nodes_of, scan_urls, Issue, different_snippet,
}
use n8n_production_systems.Json.{has_key}
use n8n_production_systems.Text.Show.{digits_of, show}
use n8n_production_systems.Workflows.Sanitize.Laws.Refused.{any_text, has_secret}
use n8n_production_systems.Workflows.Sanitize.Laws.Dropped.{Clean}
use n8n_production_systems.Workflows.Snippets.Laws.{sync_document-twice}
use n8n_production_systems.Workflows.Lint.Laws.Synced.{
  is_about_snippet, lint_document-sync_document,
}
use n8n_production_systems.Workflows.Sanitize.Laws.{sanitize_document-Clean}
use n8n_production_systems.Workflows.Lint.Laws.Passes.{WorkflowPasses, lint_workflow-passes}
use n8n_production_systems.Workflows.Lint.Laws.Bodies.{body_issues-with_newline}
use n8n_production_systems.Workflows.Sample.{
  python, file, one_file, snippets, passing, unhandled, pinned, cleaned, stale, synced,
}

pinned_sanitized : sanitize_document ascii pinned ≡ ok cleaned
unfolding sanitize_document strip_value is_dropped is_member text_eq find_secret_matches search
    matches matches_any child_path
pinned_sanitized = refl

stale-synced : sync_document python snippets stale ≡ ok (synced, 1)
unfolding sync_document field text_eq text_or_empty snippet_name first_line lstrip is_bad_name is_in
    starts_with set_member unix ends_newline
stale-synced = refl

cleaned_clean : lint_document python snippets cleaned (codes "w") ≡ ok unhandled
unfolding lint_document field text_eq is_member text_or_empty code_body is_settings_lookup_node
    search matches ends_with timeout_is_set issue_if count default_node_name body_issues
    snippet_name first_line lstrip lookup or_null matches_any is_in digits_of show strip starts_with
    error_workflow has_key indexed is_blank issue nodes_of scan_urls as_object code_under
    expression_body has_literal_http_url http_timeout is_set_timeout parameters_of text_or
    compare_snippet lint_entry lint_found lint_item lint_items lint_node lint_nodes lint_workflow
    named_issues snippet_issues timeout_issues url_issues collect_strings find_secret_matches
    hits_from hits_of secret_patterns behind is_bad_name unix is_positive truth
cleaned_clean = refl

synced_clean : lint_document python snippets synced (codes "w") ≡ ok unhandled
unfolding lint_document field text_eq is_member text_or_empty code_body is_settings_lookup_node
    search matches ends_with timeout_is_set issue_if count default_node_name body_issues
    snippet_name first_line lstrip lookup or_null matches_any is_in digits_of show strip starts_with
    error_workflow has_key indexed is_blank issue nodes_of scan_urls as_object code_under
    expression_body has_literal_http_url http_timeout is_set_timeout parameters_of text_or
    compare_snippet lint_entry lint_found lint_item lint_items lint_node lint_nodes lint_workflow
    named_issues snippet_issues timeout_issues url_issues collect_strings find_secret_matches
    hits_from hits_of secret_patterns behind is_bad_name unix is_positive truth
synced_clean = refl

passing_clean : lint_workflow python snippets passing (codes "w") ≡ ok []
unfolding lint_document field text_eq is_member text_or_empty code_body is_settings_lookup_node
    search matches ends_with timeout_is_set issue_if count default_node_name body_issues
    snippet_name first_line lstrip lookup or_null matches_any is_in digits_of show strip starts_with
    error_workflow has_key indexed is_blank issue nodes_of scan_urls as_object code_under
    expression_body has_literal_http_url http_timeout is_set_timeout parameters_of text_or
    compare_snippet lint_entry lint_found lint_item lint_items lint_node lint_nodes lint_workflow
    named_issues snippet_issues timeout_issues url_issues collect_strings find_secret_matches
    hits_from hits_of secret_patterns behind is_bad_name unix is_positive truth
passing_clean = refl

is_in-NoReturn : (s : Text) → is_in (13 ∷ []) s ≡ false → NoReturn s
unfolding is_in starts_with
is_in-NoReturn [] h = tt
is_in-NoReturn (c ∷ s) h = (ground arith, is_in-NoReturn s (ground arith))

-- the one name that the directory has
found_file : (f name s : Text) → one_file f name ≡ some s → (name ≡ codes "s") × (s ≡ f)
unfolding text_eq
found_file f name s h = elim (Bool-cases (text_eq name (codes "s"))) [
  | inl same ↦ ((text_eq_iff name (codes "s")).0 same, ground arith)
  | inr other ↦ absurd (ground arith)
]

self-SelfMarked : SelfMarked python snippets
unfolding snippet_name first_line behind lstrip is_in starts_with
self-SelfMarked name s h =
    let (same_name, same_file) = found_file file name s h in
    rw (same_name, same_file) (is_in-NoReturn file refl, refl)

ended : (name s : Text) → snippets name ≡ some s → ends_newline s ≡ true
unfolding ends_newline
ended name s h = rw ((found_file file name s h).1) refl

sanitize_document-Clean_example :
    Clean [] cleaned
    × (any_text (has_secret ascii) (collect_strings cleaned) ≡ false)
    × (sanitize_document ascii cleaned ≡ ok cleaned)
sanitize_document-Clean_example = sanitize_document-Clean ascii pinned cleaned pinned_sanitized

sync_document-twice_example : sync_document python snippets synced ≡ ok (synced, 0)
sync_document-twice_example =
    sync_document-twice python snippets self-SelfMarked stale synced 1 stale-synced

lint_document-sync_document_example :
    All (λ (i : Issue). is_about_snippet i.problem ≡ false) unhandled
lint_document-sync_document_example =
    lint_document-sync_document python snippets self-SelfMarked ended stale synced 1 (codes "w")
      unhandled stale-synced synced_clean

lint_workflow-passes_example : WorkflowPasses python snippets passing
lint_workflow-passes_example =
    lint_workflow-passes python snippets passing (codes "w") passing_clean

abbrev open_file : Text
open_file = codes "// snippet: s\n1;"

abbrev open_snippets : Text → Option Text
open_snippets = one_file open_file

open-SelfMarked : SelfMarked python open_snippets
unfolding snippet_name first_line behind lstrip is_in starts_with
open-SelfMarked name s h =
    let (same_name, same_file) = found_file open_file name s h in
    rw (same_name, same_file) (is_in-NoReturn open_file refl, refl)

body_issues-with_newline_example :
    body_issues python open_snippets (with_newline (unix open_file)) (codes "w")
    ≡ record { path = codes "w"; problem = different_snippet (codes "s") } ∷ []
unfolding is_bad_name is_in starts_with ends_newline text_eq
body_issues-with_newline_example =
    body_issues-with_newline python open_snippets (codes "s") open_file (codes "w") open-SelfMarked
      refl refl refl refl
