-- ===== src/Workflows/Snippets/Command.antt =====
-- The command line of scripts/sync_snippets.py: each file is rewritten in place.
pub mod Written
use n8n_production_systems.Json.{Json}
use n8n_production_systems.Text.{Text}
use n8n_production_systems.Workflows.Values.{Python}
use n8n_production_systems.Workflows.Snippets.Sync.{sync_document}
use n8n_production_systems.Workflows.Files.{
  Disk, Host, Arguments, read_text, load_json_text, dumps_stable, write_text, targets_of,
  process_all,
}
use n8n_production_systems.Common.{
  ℕ, Bool, true, false, Option, none, some, if◌then◌else◌, List, [], ◌∷◌, Outcome, ok, raises,
  ◌>>=◌,
}

unfoldable pub code_of : Outcome Bool → Outcome ℕ
code_of (ok failed) = ok (if failed then 1 else 0)
code_of (raises e) = raises e

module _ (py : Python) (snippets : Text → Option Text) (host : Host) where
  unfoldable pub synced_text : Disk → Text → Outcome (Text × ℕ)
  synced_text files path = do
    text ← read_text files path
    document ← load_json_text host text
    found ← sync_document py snippets document
    new_text ← dumps_stable host (found.0)
    ok (new_text, found.1)

  unfoldable pub counted : ℕ → Outcome Bool → Outcome ℕ
  counted updated (ok _) = ok updated
  counted updated (raises e) = raises e

  unfoldable pub store : Text → Disk → Outcome (Text × ℕ) → Outcome ℕ × Disk
  unfolding counted
  store path files (raises e) = (raises e, files)
  store path files (ok (text, updated)) =
      let (result, written) = write_text host files path text in (counted updated result, written)

  unfoldable pub process_file : Text → Disk → Outcome ℕ × Disk
  unfolding synced_text store
  process_file path files = store path files (synced_text files path)

  unfoldable pub process_targets : Disk → List Text → Outcome ℕ × Disk
  unfolding code_of process_file
  process_targets files [] = (ok 2, files)
  process_targets files (path ∷ paths) =
      let (failed, written) = process_all process_file (path ∷ paths) files in
      (code_of failed, written)

  unfoldable pub or_default : List Text → List Text
  or_default [] = host.default_workflow_files
  or_default (path ∷ paths) = path ∷ paths

  started : Disk → Option (List Text) → Outcome ℕ × Disk
  unfolding process_targets or_default
  started files none = (ok 2, files)
  started files (some targets) = process_targets files (or_default targets)

  unfoldable pub main : Arguments → Disk → Outcome ℕ × Disk
  unfolding started
  main args files = started files (targets_of host args)
