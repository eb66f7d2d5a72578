-- ===== src/Workflows/Lint/Laws/Synced.antt =====
-- After a synchronisation the linter finds no fault with a snippet.
use n8n_production_systems.Json.{
  Json, null, boolean, integer, float, string, array, object, Elements, nil, cons, Members, field,
}
use n8n_production_systems.Text.{Text, codes, text_eq}
use n8n_production_systems.Workflows.Values.{Python, text_or_empty}
use n8n_production_systems.Workflows.Snippets.{code_type, body_keys, ends_newline}
use n8n_production_systems.Workflows.Snippets.Sync.{
  sync_workflow, workflow_item, sync_workflows, sync_document,
}
use n8n_production_systems.Workflows.Snippets.Laws.{sync_document-twice}
use n8n_production_systems.Workflows.Snippets.Laws.Bodies.{SelfMarked}
use n8n_production_systems.Workflows.Sanitize.Secrets.{Hit}
use n8n_production_systems.Workflows.Lint.Issues.{
  Problem, pin_data, node_pin_data, secret, invalid_snippet, missing_snippet, different_snippet,
  Issue, issue,
}
use n8n_production_systems.Workflows.Lint.{lint_node, lint_document, snippet_issues, body_issues}
use n8n_production_systems.Workflows.Lint.Rules.{code_body, code_under, parameters_of}
use n8n_production_systems.Workflows.Lint.Laws.Reports.{
  Free, Free-issue_if, AllObjects, Quiet, QuietDocument, lint_document-Free, moved, ok_injective,
}
use n8n_production_systems.Workflows.Lint.Laws.Nodes.{lint_node-Free}
use n8n_production_systems.Workflows.Lint.Laws.Settled.{
  Settled, SettledNodes, sync_workflow-Settled, sync_workflows-Settled,
}
use n8n_production_systems.Workflows.Lint.Laws.Bodies.{from_parameters}
use n8n_production_systems.Common.{
  ℕ, ◌≡◌, refl, Bool, true, false, Option, some, List, [], ◌∷◌, map, ok, arith, if◌then◌else◌, All,
  bind_ok, subst, sym, ◌∙◌,
}

-- The problems with a snippet.
unfoldable pub is_about_snippet : Problem → Bool
is_about_snippet (invalid_snippet name) = true
is_about_snippet (missing_snippet name) = true
is_about_snippet (different_snippet name) = true
is_about_snippet _ = false

module _ (py : Python) (snippets : Text → Option Text) (kept : SelfMarked py snippets)
    (ended : (name s : Text) → snippets name ≡ some s → ends_newline s ≡ true) where
  bodies-Settled :
      (node : Members) (path : Text) (is_code : Bool) (found : List Issue)
      → text_eq (text_or_empty py (field node (codes "type"))) code_type ≡ is_code
      → Settled py snippets node
      → (if is_code then snippet_issues py snippets node path else ok []) ≡ ok found
      → Free is_about_snippet found
  unfolding snippet_issues code_body
  bodies-Settled node path true found is_code h run =
      let (body, ran, last) = bind_ok (code_body py node) _ found run in
      let (ms, at, body_at) = bind_ok (parameters_of py node) _ body ran in
      let same : code_under ms body_keys ≡ body = ground arith in
      let quiet : body_issues py snippets body path ≡ [] =
        subst (λ b. body_issues py snippets b path ≡ []) same
          (from_parameters py snippets kept ended node ms path at is_code h) in
      subst (Free is_about_snippet) (sym quiet ∙ ok_injective last) tt
  bodies-Settled node path false found is_code h run =
      moved is_about_snippet [] found (ok_injective run) tt

  node-Settled-Free :
      (node : Members) (path : Text) (issues : List Issue)
      → Settled py snippets node
      → lint_node py snippets node path ≡ ok issues
      → Free is_about_snippet issues
  unfolding is_about_snippet
  node-Settled-Free node path issues h run =
      lint_node-Free py snippets is_about_snippet node path issues
        (Free-issue_if is_about_snippet _ path node_pin_data refl) (refl, refl, refl)
        (λ found. bodies-Settled node path _ found refl h) run

  secrets-Free :
      (hits : List Hit) (path : Text)
      → Free is_about_snippet (map (λ hit. issue path (secret hit)) hits)
  unfolding is_about_snippet issue
  secrets-Free [] path = tt
  secrets-Free (hit ∷ hits) path = (refl, secrets-Free hits path)

  workflow-Settled :
      (workflow : Members)
      → SettledNodes py snippets workflow
      → Quiet py is_about_snippet (Settled py snippets) workflow
  unfolding is_about_snippet
  workflow-Settled workflow nodes = (
    λ path. Free-issue_if is_about_snippet _ path pin_data refl,
    λ path. secrets-Free _ path,
    nodes,
  )

  workflows-Settled :
      (xs : Elements)
      → AllObjects (SettledNodes py snippets) xs
      → AllObjects (Quiet py is_about_snippet (Settled py snippets)) xs
  workflows-Settled nil h = tt
  workflows-Settled (cons (object ms) xs) h =
      (workflow-Settled ms (h.0), workflows-Settled xs (h.1))
  workflows-Settled (cons null xs) h = workflows-Settled xs h
  workflows-Settled (cons (boolean b) xs) h = workflows-Settled xs h
  workflows-Settled (cons (integer n) xs) h = workflows-Settled xs h
  workflows-Settled (cons (float n) xs) h = workflows-Settled xs h
  workflows-Settled (cons (string s) xs) h = workflows-Settled xs h
  workflows-Settled (cons (array ys) xs) h = workflows-Settled xs h

  document-Settled :
      (document : Json)
      → sync_document py snippets document ≡ ok (document, 0)
      → QuietDocument py is_about_snippet (Settled py snippets) document
  unfolding sync_document workflow_item
  document-Settled (object workflow) h =
      let ((new, k), run, last) =
        bind_ok (sync_workflow py snippets workflow) _ (object workflow, 0) h in
      workflow-Settled workflow (sync_workflow-Settled py snippets workflow (run ∙ ground arith))
  document-Settled (array items) h =
      let ((new, k), run, last) = bind_ok (sync_workflows py snippets items) _ (array items, 0) h in
      workflows-Settled items (sync_workflows-Settled py snippets items (run ∙ ground arith))
  document-Settled null h = tt
  document-Settled (boolean b) h = tt
  document-Settled (integer n) h = tt
  document-Settled (float s) h = tt
  document-Settled (string s) h = tt

-- The linter finds no fault with a snippet in a document that the synchronisation gave back: no
-- invalid name, no missing file and no body that differs. Each snippet file is read without a
-- carriage return, starts with the line that names it and ends in a newline.
pub lint_document-sync_document :
    (py : Python) (snippets : Text → Option Text)
    → SelfMarked py snippets
    → ((name s : Text) → snippets name ≡ some s → ends_newline s ≡ true)
    → (document out : Json) (n : ℕ) (path : Text) (issues : List Issue)
    → sync_document py snippets document ≡ ok (out, n)
    → lint_document py snippets out path ≡ ok issues
    → All (λ i. is_about_snippet i.problem ≡ false) issues
unfolding is_about_snippet
lint_document-sync_document py snippets kept ended document out n path issues synced linted =
    let again = sync_document-twice py snippets kept document out n synced in
    lint_document-Free py snippets is_about_snippet (Settled py snippets)
      (node-Settled-Free py snippets kept ended) (refl, λ k. refl, refl) out path issues
      (document-Settled py snippets kept ended out again) linted
