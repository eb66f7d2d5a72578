-- ===== src/Workflows/Lint/Command.antt =====
-- The command line of scripts/lint_workflows.py, which reads the files and prints the issues.
pub mod Clean
use n8n_production_systems.Json.{Json}
use n8n_production_systems.Text.{Text, is_empty}
use n8n_production_systems.Workflows.Values.{Python}
use n8n_production_systems.Workflows.Lint.{lint_document}
use n8n_production_systems.Workflows.Files.{
  Disk, Host, Arguments, read_text, load_json_text, targets_of,
}
use n8n_production_systems.Common.{
  ℕ, Bool, true, false, not, ◌||◌, Option, none, some, if◌then◌else◌, List, [], ◌∷◌, Outcome, ok,
  raises, ◌>>=◌, Exception, file_not_found, permission_error, decode_error,
}

module _ (py : Python) (snippets : Text → Option Text) (host : Host) where
  unfoldable pub document_at : Disk → Text → Outcome Json
  document_at files path = do text ← read_text files path; load_json_text host text

  -- whether the file failed, where the exception is caught
  unfoldable pub unread : Exception → Outcome Bool
  unread file_not_found = ok true
  unread permission_error = ok true
  unread decode_error = ok true
  unread e = raises e

  unfoldable pub verdict : Text → Outcome Json → Outcome Bool
  unfolding unread
  verdict path (raises e) = unread e
  verdict path (ok document) = do
    issues ← lint_document py snippets document path
    ok (not (is_empty issues))

  unfoldable pub lint_file : Disk → Text → Outcome Bool
  unfolding document_at verdict
  lint_file files path = verdict path (document_at files path)

  unfoldable pub lint_files : Disk → List Text → Outcome Bool
  unfolding lint_file
  lint_files files [] = ok false
  lint_files files (path ∷ paths) = do
    failed ← lint_file files path
    rest ← lint_files files paths
    ok (failed || rest)

  unfoldable pub lint_targets : Disk → List Text → Outcome ℕ
  unfolding lint_files
  lint_targets files [] = ok 2
  lint_targets files (path ∷ paths) = do
    failed ← lint_files files (path ∷ paths)
    ok (if failed then 1 else 0)

  unfoldable pub targets_or : List Text → List Text
  targets_or [] = host.default_workflow_files
  targets_or (path ∷ paths) = path ∷ paths

  started : Disk → Option (List Text) → Outcome ℕ
  unfolding lint_targets targets_or
  started files none = ok 2
  started files (some targets) = lint_targets files (targets_or targets)

  unfoldable pub main : Arguments → Disk → Outcome ℕ
  unfolding started
  main args files = started files (targets_of host args)
