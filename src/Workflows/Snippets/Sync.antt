-- ===== src/Workflows/Snippets/Sync.antt =====
-- scripts/sync_snippets.py: the bodies of the Code nodes, copied from the snippet files. A document
-- that is changed in place is a new document here; one whose change fails is not written. The
-- snippet files are a function from a name to the text that `read_text` gives, if there is a file.
use n8n_production_systems.Json.{
  Json, string, array, object, Elements, nil, cons, Members, field, set_member,
}
use n8n_production_systems.Text.{Text, codes, text_eq, is_empty}
use n8n_production_systems.Workflows.Values.{Python, text_or_empty}
use n8n_production_systems.Text.Lines.{unix}
use n8n_production_systems.Workflows.Snippets.{
  first_line, snippet_name, is_bad_name, ends_newline, body_keys, code_type,
}
use n8n_production_systems.Common.{
  ℕ, ◌+◌, not, ◌&&◌, Option, none, some, if◌then◌else◌, List, [], ◌∷◌, ◌++◌, Outcome, ok, raises,
  ◌>>=◌, sync_error,
}

-- if not replacement.endswith("\n") and replacement: replacement += "\n"
unfoldable pub with_newline : Text → Text
with_newline s = if not (ends_newline s) && not (is_empty s) then s ++ codes "\n" else s

-- The body under a key.
pub record Code : Type 0 where
  pub key : Text
  pub body : Text

unfoldable pub code_at : Text → Json → Option Code → Option Code
code_at key (string s) next = some (record { key = key; body = s })
code_at key _ next = next

-- `_code_key`, with the body that is under the key
unfoldable pub code_key : Members → List Text → Option Code
unfolding code_at
code_key parameters [] = none
code_key parameters (key ∷ keys) = code_at key (field parameters key) (code_key parameters keys)

unfoldable pub paired : Members → Option Code → Option (Members × Code)
paired parameters none = none
paired parameters (some code) = some (parameters, code)

-- The parameters of a Code node, and its body.
unfoldable pub code_in : Json → Option (Members × Code)
unfolding code_key paired
code_in (object parameters) = paired parameters (code_key parameters body_keys)
code_in _ = none

module _ (py : Python) (snippets : Text → Option Text) where
  unfoldable pub code_node : Members → Option (Members × Code)
  unfolding code_in
  code_node node =
      if text_eq (text_or_empty py (field node (codes "type"))) code_type
      then code_in (field node (codes "parameters"))
      else none

  -- the new body, where it differs
  unfoldable pub replace_with : Text → Text → Option Text
  unfolding with_newline
  replace_with body file =
      let replacement = with_newline (unix file) in
      if text_eq (unix body) replacement then none else some replacement

  unfoldable pub from_file : Text → Option Text → Outcome (Option Text)
  unfolding replace_with
  from_file body none = raises sync_error
  from_file body (some file) = ok (replace_with body file)

  unfoldable pub sync_body : Text → Outcome (Option Text)
  unfolding from_file
  sync_body body = elim (snippet_name py.chars (first_line body)) [
    | none ↦ ok none
    | some name ↦ if is_bad_name name then raises sync_error else from_file body (snippets name)
  ]

  -- parameters[key] = replacement
  unfoldable pub put_body : Members → Members → Text → Text → Members
  put_body node parameters key replacement =
      set_member node (codes "parameters") (object (set_member parameters key (string replacement)))

  unfoldable pub update : Members → Members → Text → Option Text → Members × ℕ
  unfolding put_body
  update node parameters key none = (node, 0)
  update node parameters key (some replacement) = (put_body node parameters key replacement, 1)

  -- the body of the loop of `sync_workflow`
  unfoldable pub sync_node : Members → Outcome (Members × ℕ)
  unfolding code_node sync_body update
  sync_node node = elim (code_node node) [
    | none ↦ ok (node, 0)
    | some (parameters, code) ↦ do
      replacement ← sync_body code.body
      ok (update node parameters code.key replacement)
  ]

  unfoldable pub sync_item : Json → Outcome (Json × ℕ)
  unfolding sync_node
  sync_item (object node) = do found ← sync_node node; ok (object (found.0), found.1)
  sync_item v = ok (v, 0)

  -- the loop, from the first node to the last
  unfoldable pub sync_nodes : Elements → Outcome (Elements × ℕ)
  unfolding sync_item
  sync_nodes nil = ok (nil, 0)
  sync_nodes (cons v nodes) = do
    found ← sync_item v
    rest ← sync_nodes nodes
    ok (cons (found.0) (rest.0), found.1 + rest.1)

  unfoldable pub nodes_in : Members → Json → Outcome (Members × ℕ)
  unfolding sync_nodes
  nodes_in workflow (array nodes) = do
    found ← sync_nodes nodes
    ok (set_member workflow (codes "nodes") (array (found.0)), found.1)
  nodes_in workflow _ = ok (workflow, 0)

  unfoldable pub sync_workflow : Members → Outcome (Members × ℕ)
  unfolding nodes_in
  sync_workflow workflow = nodes_in workflow (field workflow (codes "nodes"))

  unfoldable pub workflow_item : Json → Outcome (Json × ℕ)
  unfolding sync_workflow
  workflow_item (object workflow) = do
    found ← sync_workflow workflow
    ok (object (found.0), found.1)
  workflow_item v = ok (v, 0)

  unfoldable pub sync_workflows : Elements → Outcome (Elements × ℕ)
  unfolding workflow_item
  sync_workflows nil = ok (nil, 0)
  sync_workflows (cons v items) = do
    found ← workflow_item v
    rest ← sync_workflows items
    ok (cons (found.0) (rest.0), found.1 + rest.1)

  unfoldable pub sync_document : Json → Outcome (Json × ℕ)
  unfolding workflow_item sync_workflows
  sync_document (object workflow) = workflow_item (object workflow)
  sync_document (array items) = do found ← sync_workflows items; ok (array (found.0), found.1)
  sync_document _ = raises sync_error
