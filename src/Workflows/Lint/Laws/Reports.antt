-- ===== src/Workflows/Lint/Laws/Reports.antt =====
-- A kind of problem is reported of no document if it is reported of none of its nodes.
use n8n_production_systems.Json.{
  Json, null, boolean, integer, float, string, array, object, Elements, nil, cons, Members, field,
  count,
}
use n8n_production_systems.Text.{Text, codes}
use n8n_production_systems.Text.Contains.{is_in}
use n8n_production_systems.Workflows.Values.{Python, text_or_empty}
use n8n_production_systems.Workflows.Sanitize.Secrets.{find_secret_matches}
use n8n_production_systems.Workflows.Lint.Issues.{
  Problem, pin_data, missing_error_workflow, too_many_nodes, secret, no_workflow, Issue, issue,
  issue_if, nodes_of, is_blank, error_workflow, max_nodes,
}
use n8n_production_systems.Json.{has_key}
use n8n_production_systems.Workflows.Lint.{
  lint_node, lint_item, lint_nodes, lint_workflow, lint_entry, lint_items, lint_found,
  lint_document,
}
use n8n_production_systems.Common.{
  ℕ, suc, ◌≡◌, Bool, true, false, Option, List, [], ◌∷◌, ◌++◌, map, ok, arith, All, All-append,
  bind_ok, subst, ◌&&◌, not, ltb,
}

-- None of the issues is of the kind.
abbrev pub Free : (Problem → Bool) → List Issue → Type 0
Free bad = All (λ i. bad i.problem ≡ false)

pub Free-issue_if :
    (bad : Problem → Bool) (b : Bool) (path : Text) (problem : Problem)
    → bad problem ≡ false
    → Free bad (issue_if b path problem)
unfolding issue_if issue
Free-issue_if bad true path problem h = (h, tt)
Free-issue_if bad false path problem h = tt

-- What holds of each object in a list.
abbrev pub AllObjects : (Members → Type 0) → Elements → Type 0
AllObjects N nil = Unit
AllObjects N (cons (object ms) xs) = N ms × AllObjects N xs
AllObjects N (cons _ xs) = AllObjects N xs

AllObjects-tail :
    (N : Members → Type 0) (v : Json) (xs : Elements) → AllObjects N (cons v xs) → AllObjects N xs
AllObjects-tail N (object ms) xs h = h.1
AllObjects-tail N null xs h = h
AllObjects-tail N (boolean b) xs h = h
AllObjects-tail N (integer n) xs h = h
AllObjects-tail N (float n) xs h = h
AllObjects-tail N (string s) xs h = h
AllObjects-tail N (array ys) xs h = h

pub moved : (bad : Problem → Bool) (xs ys : List Issue) → xs ≡ ys → Free bad xs → Free bad ys
moved bad xs ys same h = subst (Free bad) same h

pub ok_injective : {xs ys : List Issue} → ok xs ≡ ok ys → xs ≡ ys
ok_injective h = ground arith

module _ (py : Python) (bad : Problem → Bool) (N : Members → Type 0) where
  -- What is asked of a workflow: nothing of the kind is found outside its nodes, nor in them.
  abbrev pub Quiet : Members → Type 0
  Quiet workflow =
      ((path : Text) → Free bad (issue_if (has_key workflow (codes "pinData")) path pin_data))
      × ((path : Text)
          → Free bad (
              map (λ hit. issue path (secret hit))
                (find_secret_matches py.chars (object workflow))))
      × AllObjects N (nodes_of (field workflow (codes "nodes")))

  -- What is asked of a document.
  abbrev pub QuietDocument : Json → Type 0
  QuietDocument (object workflow) = Quiet workflow
  QuietDocument (array items) = AllObjects Quiet items
  QuietDocument _ = Unit

module _ (py : Python) (snippets : Text → Option Text) (bad : Problem → Bool) (N : Members → Type 0)
    (node-Free : (node : Members) (path : Text) (issues : List Issue)
      → N node
      → lint_node py snippets node path ≡ ok issues
      → Free bad issues)
    (quiet : (bad missing_error_workflow ≡ false)
      × ((n : ℕ) → bad (too_many_nodes n) ≡ false)
      × (bad no_workflow ≡ false)) where
  lint_item-Free :
      (v : Json) (xs : Elements) (path : Text) (issues : List Issue)
      → AllObjects N (cons v xs)
      → lint_item py snippets v path ≡ ok issues
      → Free bad issues
  unfolding lint_item
  lint_item-Free (object node) xs path issues n h = node-Free node path issues (n.0) h
  lint_item-Free null xs path issues n h = moved bad [] issues (ground arith) tt
  lint_item-Free (boolean b) xs path issues n h = moved bad [] issues (ground arith) tt
  lint_item-Free (integer m) xs path issues n h = moved bad [] issues (ground arith) tt
  lint_item-Free (float m) xs path issues n h = moved bad [] issues (ground arith) tt
  lint_item-Free (string s) xs path issues n h = moved bad [] issues (ground arith) tt
  lint_item-Free (array ys) xs path issues n h = moved bad [] issues (ground arith) tt

  lint_nodes-Free :
      (xs : Elements) (path : Text) (index : ℕ) (issues : List Issue)
      → AllObjects N xs
      → lint_nodes py snippets xs path index ≡ ok issues
      → Free bad issues
  unfolding lint_nodes lint_item
  lint_nodes-Free nil path index issues n h = moved bad [] issues (ground arith) tt
  lint_nodes-Free (cons v xs) path index issues n h =
      let (first, item, more) = bind_ok (lint_item py snippets v _) _ issues h in
      let (rest, items, last) =
        bind_ok (lint_nodes py snippets xs path (suc index)) _ issues more in
      moved bad (first ++ rest) issues (ground arith) (
        All-append _ first rest (lint_item-Free v xs _ first n item)
          (lint_nodes-Free xs path (suc index) rest (AllObjects-tail N v xs n) items))

  lint_workflow-Free :
      (workflow : Members) (path : Text) (issues : List Issue)
      → Quiet py bad N workflow
      → lint_workflow py snippets workflow path ≡ ok issues
      → Free bad issues
  unfolding lint_workflow
  lint_workflow-Free workflow path issues (pins, secrets, nodes) h =
      let nodes_in = nodes_of (field workflow (codes "nodes")) in
      let (found, run, last) = bind_ok (lint_nodes py snippets nodes_in path 0) _ issues h in
      let named = text_or_empty py (field workflow (codes "name")) in
      let no_error =
        is_blank (error_workflow (field workflow (codes "settings")))
        && not (is_in (codes "Error Handler") named) in
      let head =
        All-append _ _ _ (pins path)
          (Free-issue_if bad no_error path missing_error_workflow (quiet.0)) in
      let size = count nodes_in in
      let upto =
        All-append _ _ _ head
          (Free-issue_if bad (ltb max_nodes size) path (too_many_nodes size) (quiet.1 size)) in
      let body = All-append _ _ _ upto (lint_nodes-Free nodes_in path 0 found nodes run) in
      subst (Free bad) (ok_injective last) (All-append _ _ _ body (secrets path))

  lint_entry-Free :
      (v : Json) (xs : Elements) (path : Text) (b : Bool) (issues : List Issue)
      → AllObjects (Quiet py bad N) (cons v xs)
      → lint_entry py snippets v path ≡ ok (b, issues)
      → Free bad issues
  unfolding lint_entry
  lint_entry-Free (object workflow) xs path b issues w h =
      let (found, run, last) = bind_ok (lint_workflow py snippets workflow path) _ (b, issues) h in
      moved bad found issues (ground arith) (lint_workflow-Free workflow path found (w.0) run)
  lint_entry-Free null xs path b issues w h = moved bad [] issues (ground arith) tt
  lint_entry-Free (boolean c) xs path b issues w h = moved bad [] issues (ground arith) tt
  lint_entry-Free (integer n) xs path b issues w h = moved bad [] issues (ground arith) tt
  lint_entry-Free (float n) xs path b issues w h = moved bad [] issues (ground arith) tt
  lint_entry-Free (string s) xs path b issues w h = moved bad [] issues (ground arith) tt
  lint_entry-Free (array ys) xs path b issues w h = moved bad [] issues (ground arith) tt

  lint_items-Free :
      (xs : Elements) (path : Text) (index : ℕ) (b : Bool) (issues : List Issue)
      → AllObjects (Quiet py bad N) xs
      → lint_items py snippets xs path index ≡ ok (b, issues)
      → Free bad issues
  unfolding lint_items
  lint_items-Free nil path index b issues w h = moved bad [] issues (ground arith) tt
  lint_items-Free (cons v xs) path index b issues w h =
      let ((c, first), item, more) = bind_ok (lint_entry py snippets v _) _ (b, issues) h in
      let ((d, rest), items, last) =
        bind_ok (lint_items py snippets xs path (suc index)) _ (b, issues) more in
      moved bad (first ++ rest) issues (ground arith) (
        All-append _ first rest (lint_entry-Free v xs _ c first w item) (
          lint_items-Free xs path (suc index) d rest (AllObjects-tail (Quiet py bad N) v xs w)
            items))

  lint_found-Free :
      (b : Bool) (issues : List Issue) (path : Text)
      → Free bad issues
      → Free bad (lint_found py snippets b issues path)
  unfolding lint_found issue
  lint_found-Free true issues path h = h
  lint_found-Free false issues path h = All-append _ issues _ h (quiet.2, tt)

  pub lint_document-Free :
      (document : Json) (path : Text) (issues : List Issue)
      → QuietDocument py bad N document
      → lint_document py snippets document path ≡ ok issues
      → Free bad issues
  unfolding lint_document issue
  lint_document-Free (object workflow) path issues q h = lint_workflow-Free workflow path issues q h
  lint_document-Free (array items) path issues q h =
      let ((b, found), run, last) = bind_ok (lint_items py snippets items path 0) _ issues h in
      moved bad (lint_found py snippets b found path) issues (ground arith)
        (lint_found-Free b found path (lint_items-Free items path 0 b found q run))
  lint_document-Free null path issues q h =
      moved bad (issue path no_workflow ∷ []) issues (ground arith) (quiet.2, tt)
  lint_document-Free (boolean b) path issues q h =
      moved bad (issue path no_workflow ∷ []) issues (ground arith) (quiet.2, tt)
  lint_document-Free (integer n) path issues q h =
      moved bad (issue path no_workflow ∷ []) issues (ground arith) (quiet.2, tt)
  lint_document-Free (float n) path issues q h =
      moved bad (issue path no_workflow ∷ []) issues (ground arith) (quiet.2, tt)
  lint_document-Free (string s) path issues q h =
      moved bad (issue path no_workflow ∷ []) issues (ground arith) (quiet.2, tt)
