-- ===== src/Workflows/Sample.antt =====
-- A document with one Code node, for the tests.
use n8n_production_systems.Json.{Json, null, string, array, object, nil, cons, Members, end, member}
use n8n_production_systems.Text.{Text, codes, text_eq}
use n8n_production_systems.Text.Ascii.{ascii}
use n8n_production_systems.Workflows.Values.{Python}
use n8n_production_systems.Common.{Option, none, some, [], ◌∷◌, if◌then◌else◌, List}
use n8n_production_systems.Workflows.Lint.Issues.{Issue, missing_error_workflow}

abbrev pub python : Python
python = record { chars = ascii; float_of = λ s. none; render = λ v. [] }

abbrev pub file : Text
file = codes "// snippet: s\n1;\n"

-- a directory with one snippet file
abbrev pub one_file : Text → Text → Option Text
one_file f name = if text_eq name (codes "s") then some f else none

abbrev pub snippets : Text → Option Text
snippets = one_file file

abbrev pub code_node : Text → Json
code_node body = object (
    member (codes "type") (string (codes "n8n-nodes-base.code"))
      (member (codes "parameters") (object (member (codes "jsCode") (string body) end)) end))

abbrev pub passing : Members
passing =
    member (codes "settings") (object (member (codes "errorWorkflow") (string (codes "w")) end))
      (member (codes "nodes") (array (cons (code_node file) nil)) end)

-- the one issue of a document that names no error workflow
abbrev pub unhandled : List Issue
unhandled = record { path = codes "w"; problem = missing_error_workflow } ∷ []

abbrev pub pinned : Json
pinned = object (
    member (codes "pinData") (object end) (
      member (codes "meta")
        (object (member (codes "instanceId") (string (codes "i")) (member (codes "kind") null end)))
        end))

abbrev pub cleaned : Json
cleaned = object (member (codes "meta") (object (member (codes "kind") null end)) end)

abbrev pub with_code : Text → Json
with_code body = object (member (codes "nodes") (array (cons (code_node body) nil)) end)

abbrev pub stale : Json
stale = with_code (codes "// snippet: s\n0;\n")

abbrev pub synced : Json
synced = with_code file
