-- ===== src/Workflows/Snippets.antt =====
-- What scripts/sync_snippets.py and scripts/lint_workflows.py both do with the body of a Code node:
-- its first line, the name of the snippet there, and the line ends.
pub mod Sync
pub mod Command
pub mod Laws
use n8n_production_systems.Regex.{is_letter_or_digit, among}
use n8n_production_systems.Text.{Text, CharDb, codes, is_empty}
use n8n_production_systems.Text.Lines.{ends_line}
use n8n_production_systems.Text.Strip.{lstrip}
use n8n_production_systems.Text.Contains.{is_in}
use n8n_production_systems.Common.{
  ℕ, Bool, true, false, ◌&&◌, ◌||◌, ◌==◌, Option, none, some, if◌then◌else◌, List, [], ◌∷◌,
}

-- body.splitlines()[0] if body else ""
unfoldable pub first_line : Text → Text
first_line [] = []
first_line (c ∷ s) = if ends_line c then [] else c ∷ first_line s

-- what is behind a prefix
unfoldable pub behind : Text → Text → Option Text
behind [] s = some s
behind (p ∷ ps) [] = none
behind (p ∷ ps) (c ∷ s) = if p == c then behind ps s else none

-- [A-Za-z0-9_.-]
abbrev pub is_name_char : ℕ → Bool
is_name_char c = is_letter_or_digit c || among (codes "_.-") c

name_part : Text → Text
name_part [] = []
name_part (c ∷ s) = if is_name_char c then c ∷ name_part s else []

rest_part : Text → Text
rest_part [] = []
rest_part (c ∷ s) = if is_name_char c then rest_part s else c ∷ s

-- `SNIPPET_FIRST_LINE_RE.match`: the name in `// snippet: name`
module _ (chars : CharDb) where
  name_of : Text → Option Text
  unfolding name_part rest_part
  name_of s =
      if is_empty (name_part s)
      then none
      else if is_empty (lstrip chars (rest_part s))
      then some (name_part s)
      else none

  unfoldable pub snippet_name : Text → Option Text
  unfolding name_of behind
  snippet_name line = elim (behind (codes "// snippet:") line) [
    | none ↦ none
    | some s ↦ name_of (lstrip chars s)
  ]

-- ".." in name or "/" in name or "\\" in name
unfoldable pub is_bad_name : Text → Bool
is_bad_name name = is_in (codes "..") name || is_in (codes "/") name || is_in (codes "\\") name

-- text.endswith("\n")
unfoldable pub ends_newline : Text → Bool
ends_newline [] = false
ends_newline (c ∷ []) = c == 10
ends_newline (c ∷ d ∷ s) = ends_newline (d ∷ s)

abbrev pub body_keys : List Text
body_keys = codes "jsCode" ∷ codes "pythonCode" ∷ codes "functionCode" ∷ codes "code" ∷ []

abbrev pub code_type : Text
code_type = codes "n8n-nodes-base.code"
