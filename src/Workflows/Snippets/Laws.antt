-- ===== src/Workflows/Snippets/Laws.antt =====
-- Copying the snippets a second time changes nothing.
pub mod Bodies
pub mod Nodes
use n8n_production_systems.Json.{
  Json, null, boolean, integer, float, string, array, object, Elements, nil, cons, Members, end,
  member, field, set_member, set_member-twice,
}
use n8n_production_systems.Text.{Text, codes, text_eq}
use n8n_production_systems.Workflows.Values.{Python}
use n8n_production_systems.Workflows.Snippets.Sync.{
  sync_node, sync_item, sync_nodes, nodes_in, sync_workflow, workflow_item, sync_workflows,
  sync_document,
}
use n8n_production_systems.Common.{
  ℕ, ◌+◌, ◌≡◌, refl, Option, ok, raises, Outcome, bind_ok, arith, ◌>>=◌, ap, ◌∙◌, sym, subst,
}
use Bodies.{SelfMarked}
use Nodes.{sync_node_settles, field-set_member}

module _ (py : Python) (snippets : Text → Option Text) (kept : SelfMarked py snippets) where
  sync_item_settles :
      (v out : Json) (n : ℕ)
      → sync_item py snippets v ≡ ok (out, n)
      → sync_item py snippets out ≡ ok (out, 0)
  unfolding sync_item
  sync_item_settles null out n h = ground arith
  sync_item_settles (boolean b) out n h = ground arith
  sync_item_settles (integer m) out n h = ground arith
  sync_item_settles (float s) out n h = ground arith
  sync_item_settles (string s) out n h = ground arith
  sync_item_settles (array xs) out n h = ground arith
  sync_item_settles (object node) out n h =
      let ((new, k), run, last) = bind_ok (sync_node py snippets node) _ (out, n) h in
      let same : object new ≡ out = ground arith in
      rw (← same, sync_node_settles py snippets kept node new k run) refl

  sync_nodes_settles :
      (xs out : Elements) (n : ℕ)
      → sync_nodes py snippets xs ≡ ok (out, n)
      → sync_nodes py snippets out ≡ ok (out, 0)
  unfolding sync_nodes
  sync_nodes_settles nil out n h = ground arith
  sync_nodes_settles (cons v xs) out n h =
      let ((w, k), item, more) = bind_ok (sync_item py snippets v) _ (out, n) h in
      let ((ws, m), items, last) = bind_ok (sync_nodes py snippets xs) _ (out, n) more in
      let same : cons w ws ≡ out = ground arith in
      rw (← same, sync_item_settles v w k item, sync_nodes_settles xs ws m items) refl

  -- without a list of nodes
  unchanged :
      (workflow out : Members) (v : Json) (n : ℕ)
      → field workflow (codes "nodes") ≡ v
      → nodes_in py snippets workflow v ≡ ok (workflow, 0)
      → nodes_in py snippets workflow v ≡ ok (out, n)
      → sync_workflow py snippets out ≡ ok (out, 0)
  unfolding sync_workflow
  unchanged workflow out v n at stays h =
      let same : workflow ≡ out = ground arith in
      subst (λ w. sync_workflow py snippets w ≡ ok (w, 0)) same
        (ap (nodes_in py snippets workflow) at ∙ stays)

  nodes_in_settles :
      (workflow out : Members) (v : Json) (n : ℕ)
      → field workflow (codes "nodes") ≡ v
      → nodes_in py snippets workflow v ≡ ok (out, n)
      → sync_workflow py snippets out ≡ ok (out, 0)
  unfolding nodes_in sync_workflow text_eq
  nodes_in_settles workflow out null n at h = unchanged workflow out null n at refl h
  nodes_in_settles workflow out (boolean b) n at h = unchanged workflow out (boolean b) n at refl h
  nodes_in_settles workflow out (integer m) n at h = unchanged workflow out (integer m) n at refl h
  nodes_in_settles workflow out (float s) n at h = unchanged workflow out (float s) n at refl h
  nodes_in_settles workflow out (string s) n at h = unchanged workflow out (string s) n at refl h
  nodes_in_settles workflow out (object ms) n at h = unchanged workflow out (object ms) n at refl h
  nodes_in_settles workflow out (array xs) n at h =
      let ((new, k), run, last) = bind_ok (sync_nodes py snippets xs) _ (out, n) h in
      let same : set_member workflow (codes "nodes") (array new) ≡ out = ground arith in
      let here : field (set_member workflow (codes "nodes") (array new)) (codes "nodes")
          ≡ array new =
        field-set_member workflow (codes "nodes") (codes "nodes") (array new) in
      rw
        (
          ← same,
          here,
          sync_nodes_settles xs new k run,
          set_member-twice workflow (codes "nodes") (array new),
        )
        refl

  sync_workflow_settles :
      (workflow out : Members) (n : ℕ)
      → sync_workflow py snippets workflow ≡ ok (out, n)
      → sync_workflow py snippets out ≡ ok (out, 0)
  unfolding sync_workflow
  sync_workflow_settles workflow out n h = nodes_in_settles workflow out _ n refl h

  workflow_item_settles :
      (v out : Json) (n : ℕ)
      → workflow_item py snippets v ≡ ok (out, n)
      → workflow_item py snippets out ≡ ok (out, 0)
  unfolding workflow_item
  workflow_item_settles null out n h = ground arith
  workflow_item_settles (boolean b) out n h = ground arith
  workflow_item_settles (integer m) out n h = ground arith
  workflow_item_settles (float s) out n h = ground arith
  workflow_item_settles (string s) out n h = ground arith
  workflow_item_settles (array xs) out n h = ground arith
  workflow_item_settles (object workflow) out n h =
      let ((new, k), run, last) = bind_ok (sync_workflow py snippets workflow) _ (out, n) h in
      let same : object new ≡ out = ground arith in
      rw (← same, sync_workflow_settles workflow new k run) refl

  sync_workflows_settles :
      (xs out : Elements) (n : ℕ)
      → sync_workflows py snippets xs ≡ ok (out, n)
      → sync_workflows py snippets out ≡ ok (out, 0)
  unfolding sync_workflows
  sync_workflows_settles nil out n h = ground arith
  sync_workflows_settles (cons v xs) out n h =
      let ((w, k), item, more) = bind_ok (workflow_item py snippets v) _ (out, n) h in
      let ((ws, m), items, last) = bind_ok (sync_workflows py snippets xs) _ (out, n) more in
      let same : cons w ws ≡ out = ground arith in
      rw (← same, workflow_item_settles v w k item, sync_workflows_settles xs ws m items) refl

-- A document that was synchronised is not changed by a second run, which counts no updated node,
-- where each snippet file is read without a carriage return and starts with the line that names it.
pub sync_document-twice :
    (py : Python) (snippets : Text → Option Text)
    → SelfMarked py snippets
    → (document out : Json) (n : ℕ) → sync_document py snippets document ≡ ok (out, n)
    → sync_document py snippets out ≡ ok (out, 0)
unfolding sync_document workflow_item
sync_document-twice py snippets kept (object workflow) out n h =
    let ((new, k), run, last) = bind_ok (sync_workflow py snippets workflow) _ (out, n) h in
    let same : object new ≡ out = ground arith in
    rw (← same, sync_workflow_settles py snippets kept workflow new k run) refl
sync_document-twice py snippets kept (array items) out n h =
    let ((new, k), run, last) = bind_ok (sync_workflows py snippets items) _ (out, n) h in
    let same : array new ≡ out = ground arith in
    rw (← same, sync_workflows_settles py snippets kept items new k run) refl
sync_document-twice py snippets kept null out n h = cc
sync_document-twice py snippets kept (boolean b) out n h = cc
sync_document-twice py snippets kept (integer m) out n h = cc
sync_document-twice py snippets kept (float s) out n h = cc
sync_document-twice py snippets kept (string s) out n h = cc
