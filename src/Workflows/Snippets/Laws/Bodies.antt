-- ===== src/Workflows/Snippets/Laws/Bodies.antt =====
-- A body that was copied from its snippet file is not copied again.
use n8n_production_systems.Text.{Text, codes, is_empty}
use n8n_production_systems.Text.Equality.{text_eq_refl}
use n8n_production_systems.Workflows.Values.{Python}
use n8n_production_systems.Text.Lines.{unix}
use n8n_production_systems.Workflows.Snippets.{first_line, snippet_name, is_bad_name, ends_newline}
use n8n_production_systems.Workflows.Snippets.Sync.{with_newline, sync_body, replace_with}
use n8n_production_systems.Common.{
  ◌≡◌, refl, false, ◌==◌, Option, none, some, [], ◌∷◌, ◌++◌, All, All-append, ok, arith, Bool-cases,
  Option-cases, inl, inr, sym, ap, ◌∙◌, ◌&&◌, not,
}

-- `read_text` translates every line end to a newline: the text that it gives has no carriage
-- return.
abbrev pub NoReturn : Text → Type 0
NoReturn = All (λ c. (c == 13) ≡ false)

-- Each snippet file is read without a carriage return and starts with the line that names it.
abbrev pub SelfMarked : Python → (Text → Option Text) → Type 0
SelfMarked py snippets =
    (name s : Text)
    → snippets name ≡ some s
    → NoReturn s × (snippet_name py.chars (first_line s) ≡ some name)

pub unix-NoReturn : (s : Text) → NoReturn s → unix s ≡ s
unfolding unix
unix-NoReturn [] h = refl
unix-NoReturn (c ∷ s) h = rw (h.0, unix-NoReturn s h.1) refl

pub NoReturn-with_newline : (s : Text) → NoReturn s → NoReturn (with_newline s)
unfolding with_newline
NoReturn-with_newline s h = elim (Bool-cases (not (ends_newline s) && not (is_empty s))) [
  | inl short ↦ rw short (All-append _ s (codes "\n") h (refl, tt))
  | inr ended ↦ rw ended h
]

first_line-append : (s : Text) → first_line (s ++ codes "\n") ≡ first_line s
unfolding first_line
first_line-append [] = refl
first_line-append (c ∷ s) = rw (first_line-append s) refl

pub first_line-with_newline : (s : Text) → first_line (with_newline s) ≡ first_line s
unfolding with_newline
first_line-with_newline s = elim (Bool-cases (not (ends_newline s) && not (is_empty s))) [
  | inl short ↦ rw short (first_line-append s)
  | inr ended ↦ rw ended refl
]

module _ (py : Python) (snippets : Text → Option Text) where
  -- the snippet that a changed body comes from
  changed_from :
      (body new : Text)
      → sync_body py snippets body ≡ ok (some new)
      → (name : Text) × (file : Text) × (is_bad_name name ≡ false)
        × (snippets name ≡ some file)
        × (new ≡ with_newline (unix file))
  unfolding sync_body
  changed_from body new h = elim (Option-cases (snippet_name py.chars (first_line body))) [
    | inl unmarked ↦ absurd (ground arith)
    | inr (name, marked) ↦ elim (Bool-cases (is_bad_name name)) [
      | inl bad ↦ absurd (ground arith)
      | inr good ↦ elim (Option-cases (snippets name)) [
        | inl missing ↦ absurd (ground arith)
        | inr (file, found) ↦ (name, file, good, found, ground arith)
      ]
    ]
  ]

  sync_body_marked :
      (body name file : Text)
      → snippet_name py.chars (first_line body) ≡ some name
      → is_bad_name name ≡ false
      → snippets name ≡ some file
      → sync_body py snippets body ≡ ok (replace_with py snippets body file)
  unfolding sync_body
  sync_body_marked body name file marked good found = ground arith

  replace_with_self :
      (body file : Text)
      → unix body ≡ with_newline (unix file)
      → replace_with py snippets body file ≡ none
  unfolding replace_with
  replace_with_self body file h = rw (h, text_eq_refl (with_newline (unix file))) refl

  pub sync_body_settles :
      (body new : Text)
      → SelfMarked py snippets
      → sync_body py snippets body ≡ ok (some new)
      → sync_body py snippets new ≡ ok none
  sync_body_settles body new kept h =
      let (name, file, good, found, same) = changed_from body new h in
      let (plain, marked) = kept name file found in
      let line : snippet_name py.chars (first_line new) ≡ some name =
        rw (same, unix-NoReturn file plain, first_line-with_newline file) marked in
      let stays : unix new ≡ new =
        rw (same, unix-NoReturn file plain)
          (unix-NoReturn (with_newline file) (NoReturn-with_newline file plain)) in
      let target : with_newline (unix file) ≡ new = sym same in
      sync_body_marked new name file line good found
      ∙ ap ok (replace_with_self new file (rw stays (sym target)))
