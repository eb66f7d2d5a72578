-- ===== src/Workflows/Lint/Laws/Settled.antt =====
-- The nodes of a document that a run of the synchronisation leaves as it is.
use n8n_production_systems.Json.{
  Json, null, boolean, integer, float, string, array, object, Elements, nil, cons, Members, field,
  set_member,
}
use n8n_production_systems.Text.{Text, codes, text_eq}
use n8n_production_systems.Workflows.Values.{Python}
use n8n_production_systems.Workflows.Snippets.Sync.{
  sync_node, sync_item, sync_nodes, nodes_in, sync_workflow, workflow_item, sync_workflows,
}
use n8n_production_systems.Workflows.Snippets.Laws.Nodes.{field-set_member}
use n8n_production_systems.Workflows.Lint.Issues.{nodes_of}
use n8n_production_systems.Workflows.Lint.Laws.Reports.{AllObjects}
use n8n_production_systems.Common.{◌≡◌, refl, Option, ok, arith, bind_ok, ap, sym, ◌∙◌}

module _ (py : Python) (snippets : Text → Option Text) where
  -- A run leaves the node as it is, and counts no change.
  abbrev pub Settled : Members → Type 0
  Settled node = sync_node py snippets node ≡ ok (node, 0)

  one-Settled :
      (v : Json) (xs : Elements)
      → sync_item py snippets v ≡ ok (v, 0)
      → AllObjects Settled xs
      → AllObjects Settled (cons v xs)
  unfolding sync_item
  one-Settled (object ms) xs h rest =
      let ((new, k), run, last) = bind_ok (sync_node py snippets ms) _ (object ms, 0) h in
      (run ∙ ground arith, rest)
  one-Settled null xs h rest = rest
  one-Settled (boolean b) xs h rest = rest
  one-Settled (integer n) xs h rest = rest
  one-Settled (float n) xs h rest = rest
  one-Settled (string s) xs h rest = rest
  one-Settled (array ys) xs h rest = rest

  sync_nodes-Settled :
      (xs : Elements) → sync_nodes py snippets xs ≡ ok (xs, 0) → AllObjects Settled xs
  unfolding sync_nodes
  sync_nodes-Settled nil h = tt
  sync_nodes-Settled (cons v xs) h =
      let ((w, k), item, more) = bind_ok (sync_item py snippets v) _ (cons v xs, 0) h in
      let ((ws, m), items, last) = bind_ok (sync_nodes py snippets xs) _ (cons v xs, 0) more in
      let rest : AllObjects Settled xs = sync_nodes-Settled xs (items ∙ ground arith) in
      one-Settled v xs (item ∙ ground arith) rest

  nodes_in-Settled :
      (workflow : Members) (v : Json)
      → field workflow (codes "nodes") ≡ v
      → nodes_in py snippets workflow v ≡ ok (workflow, 0)
      → AllObjects Settled (nodes_of v)
  unfolding nodes_in nodes_of text_eq
  nodes_in-Settled workflow (array xs) at h =
      let ((new, k), run, last) = bind_ok (sync_nodes py snippets xs) _ (workflow, 0) h in
      let same : set_member workflow (codes "nodes") (array new) ≡ workflow = ground arith in
      let here : field (set_member workflow (codes "nodes") (array new)) (codes "nodes")
          ≡ array new =
        field-set_member workflow (codes "nodes") (codes "nodes") (array new) in
      let nodes : array xs ≡ array new =
        sym at ∙ ap (λ w. field w (codes "nodes")) (sym same) ∙ here in
      sync_nodes-Settled xs (run ∙ ground arith)
  nodes_in-Settled workflow null at h = tt
  nodes_in-Settled workflow (boolean b) at h = tt
  nodes_in-Settled workflow (integer n) at h = tt
  nodes_in-Settled workflow (float n) at h = tt
  nodes_in-Settled workflow (string s) at h = tt
  nodes_in-Settled workflow (object ms) at h = tt

  -- The nodes of a workflow that is left as it is.
  abbrev pub SettledNodes : Members → Type 0
  SettledNodes workflow = AllObjects Settled (nodes_of (field workflow (codes "nodes")))

  pub sync_workflow-Settled :
      (workflow : Members)
      → sync_workflow py snippets workflow ≡ ok (workflow, 0)
      → SettledNodes workflow
  unfolding sync_workflow
  sync_workflow-Settled workflow h = nodes_in-Settled workflow _ refl h

  one_workflow-Settled :
      (v : Json) (xs : Elements)
      → workflow_item py snippets v ≡ ok (v, 0)
      → AllObjects SettledNodes xs
      → AllObjects SettledNodes (cons v xs)
  unfolding workflow_item
  one_workflow-Settled (object ms) xs h rest =
      let ((new, k), run, last) = bind_ok (sync_workflow py snippets ms) _ (object ms, 0) h in
      (sync_workflow-Settled ms (run ∙ ground arith), rest)
  one_workflow-Settled null xs h rest = rest
  one_workflow-Settled (boolean b) xs h rest = rest
  one_workflow-Settled (integer n) xs h rest = rest
  one_workflow-Settled (float n) xs h rest = rest
  one_workflow-Settled (string s) xs h rest = rest
  one_workflow-Settled (array ys) xs h rest = rest

  pub sync_workflows-Settled :
      (xs : Elements) → sync_workflows py snippets xs ≡ ok (xs, 0) → AllObjects SettledNodes xs
  unfolding sync_workflows
  sync_workflows-Settled nil h = tt
  sync_workflows-Settled (cons v xs) h =
      let ((w, k), item, more) = bind_ok (workflow_item py snippets v) _ (cons v xs, 0) h in
      let ((ws, m), items, last) = bind_ok (sync_workflows py snippets xs) _ (cons v xs, 0) more in
      let rest : AllObjects SettledNodes xs = sync_workflows-Settled xs (items ∙ ground arith) in
      one_workflow-Settled v xs (item ∙ ground arith) rest
