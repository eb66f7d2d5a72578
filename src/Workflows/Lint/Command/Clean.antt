-- ===== src/Workflows/Lint/Command/Clean.antt =====
-- When the linter ends with the code 0.
use n8n_production_systems.Json.{Json}
use n8n_production_systems.Text.{Text, is_empty}
use n8n_production_systems.Workflows.Values.{Python}
use n8n_production_systems.Workflows.Lint.{lint_document}
use n8n_production_systems.Workflows.Lint.Issues.{Issue}
use n8n_production_systems.Workflows.Files.{Disk, Host, Arguments, targets_of}
use n8n_production_systems.Workflows.Lint.Command.{
  document_at, verdict, unread, lint_file, lint_files, lint_targets, targets_or, started, main,
}
use n8n_production_systems.Common.{
  ◌≡◌, ◌↔◌, refl, Bool, false, not, ◌||◌, Option, some, if◌then◌else◌, List, [], ◌∷◌, ok, raises,
  bind_ok, ◌>>=◌, All, arith, ap, ◌∙◌, sym, Outcome-cases, inl, inr, Exception,
}

module _ (py : Python) (snippets : Text → Option Text) (host : Host) where
  -- The file is read as a document in which the linter finds no issue.
  abbrev pub HasNoIssue : Disk → Text → Type 0
  HasNoIssue files path =
      (document : Json) × (document_at py snippets host files path ≡ ok document)
      × (lint_document py snippets document path ≡ ok [])

  no_issue : (issues : List Issue) → not (is_empty issues) ≡ false → issues ≡ []
  no_issue [] h = refl
  no_issue (i ∷ issues) h = cc

  unread_fails : (e : Exception) → unread py snippets host e ≡ ok false → ⊥
  unfolding unread
  unread_fails e h = ground arith

  verdict-HasNoIssue :
      (files : Disk) (path : Text)
      → lint_file py snippets host files path ≡ ok false
      → HasNoIssue files path
  unfolding lint_file verdict
  verdict-HasNoIssue files path h = elim (Outcome-cases (document_at py snippets host files path)) [
    | inl (e, odd) ↦
        let failed : verdict py snippets host path (raises e) ≡ ok false =
          sym (ap (verdict py snippets host path) odd) ∙ h in
        absurd (unread_fails e failed)
    | inr (document, read) ↦
        let judged : verdict py snippets host path (ok document) ≡ ok false =
          sym (ap (verdict py snippets host path) read) ∙ h in
        let (issues, found, last) =
          bind_ok (lint_document py snippets document path) _ false judged in
        let none_found : issues ≡ [] = no_issue issues (ground arith) in
        (document, read, found ∙ ap ok none_found)
  ]

  HasNoIssue-verdict :
      (files : Disk) (path : Text)
      → HasNoIssue files path
      → lint_file py snippets host files path ≡ ok false
  unfolding lint_file verdict
  HasNoIssue-verdict files path (document, read, clean) =
      ap (verdict py snippets host path) read ∙ rw clean refl

  or_false : (a b : Bool) → (a || b) ≡ false → (a ≡ false) × (b ≡ false)
  or_false a b h = ground arith

  lint_files-All :
      (files : Disk) (paths : List Text)
      → lint_files py snippets host files paths ≡ ok false
      → All (HasNoIssue files) paths
  unfolding lint_files
  lint_files-All files [] h = tt
  lint_files-All files (path ∷ paths) h =
      let (a, first, more) = bind_ok (lint_file py snippets host files path) _ false h in
      let (b, rest, last) = bind_ok (lint_files py snippets host files paths) _ false more in
      let (no_first, no_rest) = or_false a b (ground arith) in
      (
        verdict-HasNoIssue files path (first ∙ ap ok no_first),
        lint_files-All files paths (rest ∙ ap ok no_rest),
      )

  All-lint_files :
      (files : Disk) (paths : List Text)
      → All (HasNoIssue files) paths
      → lint_files py snippets host files paths ≡ ok false
  unfolding lint_files
  All-lint_files files [] h = refl
  All-lint_files files (path ∷ paths) (first, rest) =
      rw (HasNoIssue-verdict files path first, All-lint_files files paths rest) refl

  -- A run of the linter over files, those that are given or else those of the repository, ends with
  -- the code 0 exactly if each of them is read as a document in which it finds no issue.
  pub main-passes_iff :
      (args : Arguments) (given : List Text) (path : Text) (paths : List Text) (files : Disk)
      → targets_of host args ≡ some given
      → targets_or py snippets host given ≡ path ∷ paths
      → (main py snippets host args files ≡ ok 0) ↔ All (HasNoIssue files) (path ∷ paths)
  unfolding main started lint_targets
  main-passes_iff args given path paths files targets some_path =
      let run = lint_files py snippets host files (path ∷ paths) in
      let same : main py snippets host args files
          ≡ (run >>= (λ failed. ok (if failed then 1 else 0))) =
        rw (targets, some_path) refl in
      (
        λ h.
            let (failed, ran, last) =
              bind_ok run (λ failed. ok (if failed then 1 else 0)) 0 (sym same ∙ h) in
            let fine : failed ≡ false = ground arith in
            lint_files-All files (path ∷ paths) (ran ∙ ap ok fine),
        λ all.
            same
            ∙ ap (λ r. r >>= (λ failed. ok (if failed then 1 else 0)))
                (All-lint_files files (path ∷ paths) all),
      )
