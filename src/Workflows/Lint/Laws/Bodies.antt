-- ===== src/Workflows/Lint/Laws/Bodies.antt =====
-- The body of a node that the synchronisation leaves as it is has no issue.
use n8n_production_systems.Json.{
  Json, null, boolean, integer, float, string, array, object, nil, cons, Members, end, member,
  field, lookup, or_null,
}
use n8n_production_systems.Text.{Text, codes, text_eq, is_empty}
use n8n_production_systems.Text.Equality.{text_eq_iff, text_eq_refl}
use n8n_production_systems.Workflows.Values.{Python, truth, text_or_empty}
use n8n_production_systems.Text.Lines.{unix}
use n8n_production_systems.Workflows.Snippets.{
  code_type, body_keys, first_line, snippet_name, is_bad_name, ends_newline, behind,
}
use n8n_production_systems.Workflows.Snippets.Sync.{
  Code, code_at, code_key, code_in, paired, code_node, sync_body, replace_with, with_newline,
  update,
}
use n8n_production_systems.Workflows.Snippets.Laws.Bodies.{
  SelfMarked, unix-NoReturn, first_line-with_newline, NoReturn-with_newline,
}
use n8n_production_systems.Workflows.Snippets.Laws.Nodes.{sync_node_code, sync_node_fails}
use n8n_production_systems.Workflows.Lint.Issues.{different_snippet, issue, issue_if}
use n8n_production_systems.Workflows.Lint.{body_issues, named_issues, compare_snippet}
use n8n_production_systems.Workflows.Lint.Rules.{code_under, text_or, parameters_of, as_object}
use n8n_production_systems.Workflows.Lint.Laws.Settled.{Settled}
use n8n_production_systems.Common.{
  ◌≡◌, refl, Bool, true, false, Option, none, some, List, [], ◌∷◌, ◌++◌, ok, raises,
  attribute_error, arith, if◌then◌else◌, Bool-cases, Option-cases, Outcome-cases, inl, inr, ==_refl,
  ◌⊎◌, ap, ◌∙◌,
}

-- The text under the first key is that of the code that the synchronisation finds.
text_of_code : Option Code → Text
text_of_code none = []
text_of_code (some code) = code.body

one_key :
    (key : Text) (v : Json) (next : Text) (more : Option Code)
    → next ≡ text_of_code more
    → text_or v next ≡ text_of_code (code_at key v more)
unfolding text_or code_at text_of_code
one_key key null next more h = h
one_key key (boolean b) next more h = h
one_key key (integer n) next more h = h
one_key key (float n) next more h = h
one_key key (string s) next more h = refl
one_key key (array xs) next more h = h
one_key key (object ms) next more h = h

code_under-code_key :
    (ms : Members) (keys : List Text) → code_under ms keys ≡ text_of_code (code_key ms keys)
unfolding code_under code_key text_of_code
code_under-code_key ms [] = refl
code_under-code_key ms (key ∷ keys) = one_key key (field ms key) _ _ (code_under-code_key ms keys)

with_newline-ends_newline : (s : Text) → ends_newline s ≡ true → with_newline s ≡ s
unfolding with_newline
with_newline-ends_newline s h = ground arith

only_end :
    (b : Bool) (ms : Members) → (if b then raises attribute_error else ok end) ≡ ok ms → ms ≡ end
only_end true ms h = cc
only_end false ms h = ground arith

parameters_cases :
    (py : Python) (v : Json) (ms : Members)
    → (if truth py v then as_object v else ok end) ≡ ok ms
    → (v ≡ object ms) ⊎ (ms ≡ end)
unfolding truth as_object
parameters_cases py null ms h = inr (ground arith)
parameters_cases py (boolean true) ms h = cc
parameters_cases py (boolean false) ms h = inr (ground arith)
parameters_cases py (integer n) ms h = inr (only_end _ ms h)
parameters_cases py (float s) ms h = inr (only_end _ ms h)
parameters_cases py (string s) ms h = inr (only_end _ ms h)
parameters_cases py (array nil) ms h = inr (ground arith)
parameters_cases py (array (cons x xs)) ms h = cc
parameters_cases py (object end) ms h = inr (ground arith)
parameters_cases py (object (member key item rest)) ms h = inl (ground arith)

module _ (py : Python) (snippets : Text → Option Text) (kept : SelfMarked py snippets)
    (ended : (name s : Text) → snippets name ≡ some s → ends_newline s ≡ true) where
  -- A body that is left as it is has the text of its snippet.
  replaced_none :
      (body name file : Text)
      → snippets name ≡ some file
      → replace_with py snippets body file ≡ none
      → unix body ≡ unix file
  unfolding replace_with
  replaced_none body name file found h =
      let plain : unix file ≡ file = unix-NoReturn file ((kept name file found).0) in
      let whole : with_newline file ≡ file =
        with_newline-ends_newline file (ended name file found) in
      ground (arith, text_eq_iff (unix body) (with_newline (unix file)))

  body-Settled :
      (body path : Text)
      → sync_body py snippets body ≡ ok none
      → body_issues py snippets body path ≡ []
  unfolding sync_body body_issues named_issues compare_snippet issue_if
  body-Settled body path h = elim (Option-cases (snippet_name py.chars (first_line body))) [
    | inl unmarked ↦ ap (named_issues py snippets body path) unmarked
    | inr (name, marked) ↦ elim (Bool-cases (is_bad_name name)) [
      | inl bad ↦ absurd (ground arith)
      | inr good ↦ elim (Option-cases (snippets name)) [
        | inl missing ↦ absurd (ground arith)
        | inr (file, found) ↦
            let same : unix body ≡ unix file = replaced_none body name file found (ground arith) in
            ap (named_issues py snippets body path) marked
            ∙ ground (arith, text_eq_refl (unix file))
      ]
    ]
  ]

  code-Settled :
      (node parameters : Members) (code : Code)
      → code_node py snippets node ≡ some (parameters, code)
      → Settled py snippets node
      → sync_body py snippets code.body ≡ ok none
  unfolding update
  code-Settled node parameters code found h =
      elim (Outcome-cases (sync_body py snippets code.body)) [
        | inl (e, failed) ↦
            absurd (ground (arith, sync_node_fails py snippets node parameters code e found failed))
        | inr (none, same) ↦ same
        | inr (some new, changed) ↦ absurd (
            ground
              (arith, sync_node_code py snippets node parameters code (some new) found changed))
      ]

  no_code : (path : Text) → body_issues py snippets [] path ≡ []
  unfolding body_issues first_line snippet_name behind named_issues
  no_code path = refl

  -- The issues of the code that the parameters have.
  found-Settled :
      (node parameters : Members) (code : Option Code) (path : Text)
      → code_node py snippets node ≡ paired parameters code
      → Settled py snippets node
      → body_issues py snippets (text_of_code code) path ≡ []
  unfolding text_of_code paired
  found-Settled node parameters none path found h = no_code path
  found-Settled node parameters (some code) path found h =
      body-Settled code.body path (code-Settled node parameters code found h)

  from_object :
      (node ms : Members) (path : Text)
      → field node (codes "parameters") ≡ object ms
      → text_eq (text_or_empty py (field node (codes "type"))) code_type ≡ true
      → Settled py snippets node
      → body_issues py snippets (code_under ms body_keys) path ≡ []
  unfolding code_node code_in
  from_object node ms path at is_code h =
      let found : code_node py snippets node ≡ paired ms (code_key ms body_keys) =
        rw (is_code, at) refl in
      rw (code_under-code_key ms body_keys)
        (found-Settled node ms (code_key ms body_keys) path found h)

  pub from_parameters :
      (node ms : Members) (path : Text)
      → parameters_of py node ≡ ok ms
      → text_eq (text_or_empty py (field node (codes "type"))) code_type ≡ true
      → Settled py snippets node
      → body_issues py snippets (code_under ms body_keys) path ≡ []
  unfolding parameters_of code_under text_or field lookup or_null
  from_parameters node ms path run is_code h =
      elim (parameters_cases py (field node (codes "parameters")) ms run) [
        | inl at ↦ from_object node ms path at is_code h
        | inr none_there ↦ rw none_there (no_code path)
      ]

longer : (s : Text) → text_eq (s ++ codes "\n") s ≡ false
unfolding text_eq
longer [] = refl
longer (c ∷ s) = rw (==_refl c) (longer s)

-- A snippet file that does not end in a newline: the body that the synchronisation writes is always
-- reported as different from the file. The file is not empty, is read without a carriage return,
-- and starts with the line that names it.
pub body_issues-with_newline :
    (py : Python) (snippets : Text → Option Text) (name file path : Text)
    → SelfMarked py snippets
    → snippets name ≡ some file
    → is_bad_name name ≡ false
    → ends_newline file ≡ false
    → is_empty file ≡ false
    → body_issues py snippets (with_newline (unix file)) path
      ≡ record { path = path; problem = different_snippet name } ∷ []
unfolding body_issues named_issues compare_snippet issue_if issue with_newline
body_issues-with_newline py snippets name file path kept found good open_end full =
    let (plain, marked) = kept name file found in
    let written : with_newline (unix file) ≡ file ++ codes "\n" =
      rw (unix-NoReturn file plain, open_end, full) refl in
    let line : snippet_name py.chars (first_line (with_newline (unix file))) ≡ some name =
      rw (unix-NoReturn file plain, first_line-with_newline file) marked in
    let same : unix (with_newline (unix file)) ≡ with_newline (unix file) =
      rw (unix-NoReturn file plain)
        (unix-NoReturn (with_newline file) (NoReturn-with_newline file plain)) in
    ap (named_issues py snippets (with_newline (unix file)) path) line
    ∙ ground (arith, longer file, unix-NoReturn file plain)
