-- ===== src/Workflows/Snippets/Laws/Nodes.antt =====
-- What a changed node, workflow and document look like to the second run.
use n8n_production_systems.Json.{
  Json, null, boolean, integer, float, string, array, object, Members, field, set_member, or_null,
  lookup-set_member,
}
use n8n_production_systems.Text.{Text, codes, text_eq}
use n8n_production_systems.Text.Equality.{text_eq_iff, text_eq_refl}
use n8n_production_systems.Workflows.Values.{Python, text_or_empty}
use n8n_production_systems.Workflows.Snippets.{body_keys, code_type}
use n8n_production_systems.Workflows.Snippets.Sync.{
  Code, code_at, code_key, code_in, paired, code_node, sync_body, put_body, update, sync_node,
}
use n8n_production_systems.Common.{
  ℕ, ◌≡◌, refl, true, Option, none, some, List, [], ◌∷◌, ok, raises, Exception, arith,
  if◌then◌else◌, Bool-cases, Outcome-cases, Option-cases, ◌⊎◌, inl, inr, sym, ap, subst, ◌∙◌,
}
use n8n_production_systems.Workflows.Snippets.Laws.Bodies.{SelfMarked, sync_body_settles}

pub field-set_member :
    (ms : Members) (key other : Text) (value : Json)
    → field (set_member ms key value) other ≡ (if text_eq key other then value else field ms other)
unfolding field or_null
field-set_member ms key other value = elim (Bool-cases (text_eq key other)) [
  | inl same ↦ rw (lookup-set_member ms key other value, same) refl
  | inr different ↦ rw (lookup-set_member ms key other value, different) refl
]

abbrev with_body : Code → Text → Code
with_body code s = record { key = code.key; body = s }

-- A text is taken, any other value is passed over.
pub code_at_cases :
    (key : Text) (v : Json)
    → ((s : Text) × (v ≡ string s)) ⊎ ((next : Option Code) → code_at key v next ≡ next)
unfolding code_at
code_at_cases key null = inr (λ next. refl)
code_at_cases key (boolean b) = inr (λ next. refl)
code_at_cases key (integer n) = inr (λ next. refl)
code_at_cases key (float n) = inr (λ next. refl)
code_at_cases key (string s) = inl (s, refl)
code_at_cases key (array xs) = inr (λ next. refl)
code_at_cases key (object ms) = inr (λ next. refl)

code_at-set_member :
    (ms : Members) (key : Text) (s : Text) (next : Option Code)
    → code_at key (field (set_member ms key (string s)) key) next
      ≡ some (record { key = key; body = s })
unfolding code_at
code_at-set_member ms key s next =
    rw (field-set_member ms key key (string s), text_eq_refl key) refl

-- The body that was written is found where the body was found before.
code_key-set_member :
    (ms : Members) (keys : List Text) (code : Code) (s : Text)
    → code_key ms keys ≡ some code
    → code_key (set_member ms code.key (string s)) keys ≡ some (with_body code s)
unfolding code_key
code_key-set_member ms [] code s h = cc
code_key-set_member ms (k ∷ keys) code s h = elim (Bool-cases (text_eq code.key k)) [
  | inl same ↦
      let eq : code.key ≡ k = (text_eq_iff code.key k).0 same in
      rw (← eq) (code_at-set_member ms code.key s _)
  | inr different ↦ elim (code_at_cases k (field ms k)) [
    | inl (b, found) ↦
        let key : k ≡ code.key = ground (arith, code_at) in
        absurd (ground (arith, text_eq_iff code.key k))
    | inr skip ↦
        rw (field-set_member ms code.key k (string s), different)
          (skip (code_key (set_member ms code.key (string s)) keys)
            ∙ code_key-set_member ms keys code s (sym (skip (code_key ms keys)) ∙ h))
  ]
]

paired_parts :
    (ms parameters : Members) (found : Option Code) (code : Code)
    → paired ms found ≡ some (parameters, code)
    → (ms ≡ parameters) × (found ≡ some code)
unfolding paired
paired_parts ms parameters none code h = cc
paired_parts ms parameters (some c) code h = ground arith

code_in-set_member :
    (v : Json) (parameters : Members) (code : Code) (s : Text)
    → code_in v ≡ some (parameters, code)
    → code_in (object (set_member parameters code.key (string s)))
      ≡ some (set_member parameters code.key (string s), with_body code s)
unfolding code_in paired
code_in-set_member (object ms) parameters code s h =
    let (same, found) = paired_parts ms parameters (code_key ms body_keys) code h in
    ap (paired _) (
      code_key-set_member parameters body_keys code s
        (subst (λ x. code_key x body_keys ≡ some code) same found))
code_in-set_member null parameters code s h = cc
code_in-set_member (boolean b) parameters code s h = cc
code_in-set_member (integer n) parameters code s h = cc
code_in-set_member (float n) parameters code s h = cc
code_in-set_member (string n) parameters code s h = cc
code_in-set_member (array xs) parameters code s h = cc

module _ (py : Python) (snippets : Text → Option Text) where
  code_node_parts :
      (node parameters : Members) (code : Code)
      → code_node py snippets node ≡ some (parameters, code)
      → (text_eq (text_or_empty py (field node (codes "type"))) code_type ≡ true)
        × (code_in (field node (codes "parameters")) ≡ some (parameters, code))
  unfolding code_node
  code_node_parts node parameters code h = ground arith

  code_node-put_body :
      (node parameters : Members) (code : Code) (s : Text)
      → code_node py snippets node ≡ some (parameters, code)
      → code_node py snippets (put_body py snippets node parameters code.key s)
        ≡ some (set_member parameters code.key (string s), with_body code s)
  unfolding code_node put_body text_eq
  code_node-put_body node parameters code s h =
      let kind : text_or_empty py
            (field (put_body py snippets node parameters code.key s) (codes "type"))
          ≡ text_or_empty py (field node (codes "type")) =
        ap (text_or_empty py) (field-set_member node (codes "parameters") (codes "type") _) in
      let inner : field (put_body py snippets node parameters code.key s) (codes "parameters")
          ≡ object (set_member parameters code.key (string s)) =
        field-set_member node (codes "parameters") (codes "parameters") _ in
      let (is_code, found) = code_node_parts node parameters code h in
      rw (kind, is_code, inner)
        (code_in-set_member (field node (codes "parameters")) parameters code s found)

  sync_node_other :
      (node : Members)
      → code_node py snippets node ≡ none
      → sync_node py snippets node ≡ ok (node, 0)
  unfolding sync_node
  sync_node_other node h = ground arith

  pub sync_node_code :
      (node parameters : Members) (code : Code) (found : Option Text)
      → code_node py snippets node ≡ some (parameters, code)
      → sync_body py snippets code.body ≡ ok found
      → sync_node py snippets node ≡ ok (update py snippets node parameters code.key found)
  unfolding sync_node
  sync_node_code node parameters code found h body = ground arith

  pub sync_node_fails :
      (node parameters : Members) (code : Code) (e : Exception)
      → code_node py snippets node ≡ some (parameters, code)
      → sync_body py snippets code.body ≡ raises e
      → sync_node py snippets node ≡ raises e
  unfolding sync_node
  sync_node_fails node parameters code e h body = ground arith

  pub sync_node_settles :
      (kept : SelfMarked py snippets) (node out : Members) (n : ℕ)
      → sync_node py snippets node ≡ ok (out, n)
      → sync_node py snippets out ≡ ok (out, 0)
  unfolding update
  sync_node_settles kept node out n h = elim (Option-cases (code_node py snippets node)) [
    | inl other ↦
        let same : node ≡ out = ground (arith, sync_node_other node other) in
        rw (← same) (sync_node_other node other)
    | inr ((parameters, code), found) ↦ elim (Outcome-cases (sync_body py snippets code.body)) [
      | inl (e, failed) ↦
          absurd (ground (arith, sync_node_fails node parameters code e found failed))
      | inr (none, kept_body) ↦
          let same : node ≡ out =
            ground (arith, sync_node_code node parameters code none found kept_body) in
          rw (← same) (sync_node_code node parameters code none found kept_body)
      | inr (some new, changed) ↦
          let same : put_body py snippets node parameters code.key new ≡ out =
            ground (arith, sync_node_code node parameters code (some new) found changed) in
          rw (← same) (
            sync_node_code (put_body py snippets node parameters code.key new)
              (set_member parameters code.key (string new)) (with_body code new) none
              (code_node-put_body node parameters code new found)
              (sync_body_settles py snippets code.body new kept changed))
    ]
  ]
