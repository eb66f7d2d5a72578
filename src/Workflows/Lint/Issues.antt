-- ===== src/Workflows/Lint/Issues.antt =====
-- The issues of scripts/lint_workflows.py, and what the linter reads of a workflow.
use n8n_production_systems.Json.{
  Json, null, boolean, integer, float, string, array, object, Elements, nil, cons, Members, end,
  member, field,
}
use n8n_production_systems.Text.{Text, codes}
use n8n_production_systems.Text.Show.{show}
use n8n_production_systems.Workflows.Values.{Python}
use n8n_production_systems.Workflows.Sanitize.Secrets.{Hit}
use n8n_production_systems.Workflows.Lint.Rules.{has_literal_http_url}
use n8n_production_systems.Common.{ℕ, suc, Bool, true, false, if◌then◌else◌, List, [], ◌∷◌, ◌++◌}

pub data Problem : Type 0 where
  pin_data node_pin_data : Problem
  missing_error_workflow : Problem
  too_many_nodes : ℕ → Problem
  default_name missing_timeout : Problem
  invalid_snippet missing_snippet different_snippet : Text → Problem
  hardcoded_url : Problem
  secret : Hit → Problem
  no_workflow : Problem

pub record Issue : Type 0 where
  pub path : Text
  pub problem : Problem

abbrev pub max_nodes : ℕ
max_nodes = 40

unfoldable pub issue : Text → Problem → Issue
issue path problem = record { path = path; problem = problem }

-- an issue under a condition
unfoldable pub issue_if : Bool → Text → Problem → List Issue
unfolding issue
issue_if b path problem = if b then issue path problem ∷ [] else []

-- f"{path}[{index}]"
unfoldable pub indexed : Text → ℕ → Text
indexed path index = path ++ codes "[" ++ show index ++ codes "]"

-- error_workflow in (None, "", {}, [])
unfoldable pub is_blank : Json → Bool
is_blank null = true
is_blank (string []) = true
is_blank (object end) = true
is_blank (array nil) = true
is_blank _ = false

-- settings.get("errorWorkflow"), of settings that are an object
unfoldable pub error_workflow : Json → Json
error_workflow (object settings) = field settings (codes "errorWorkflow")
error_workflow _ = null

-- nodes, where they are a list
unfoldable pub nodes_of : Json → Elements
nodes_of (array nodes) = nodes
nodes_of _ = nil

module _ (py : Python) where
  unfoldable mutual
    pub scan_urls : Json → Text → List Issue
    scan_urls null path = []
    scan_urls (boolean b) path = []
    scan_urls (integer n) path = []
    scan_urls (float n) path = []
    scan_urls (string s) path = issue_if (has_literal_http_url py.chars s) path hardcoded_url
    scan_urls (array xs) path = scan_items xs path 0
    scan_urls (object ms) path = scan_members ms path

    pub scan_items : Elements → Text → ℕ → List Issue
    scan_items nil path index = []
    scan_items (cons x xs) path index =
        scan_urls x (indexed path index) ++ scan_items xs path (suc index)

    pub scan_members : Members → Text → List Issue
    scan_members end path = []
    scan_members (member key item ms) path =
        scan_urls item (path ++ codes "." ++ key) ++ scan_members ms path
