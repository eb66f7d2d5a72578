-- ===== src/Workflows/Runs.antt =====
-- Runs of the scripts over one file.
use n8n_production_systems.Json.{object}
use n8n_production_systems.Text.{codes}
use n8n_production_systems.Text.Ascii.{ascii}
use n8n_production_systems.Text.Contains.{is_member}
use n8n_production_systems.Workflows.Files.{Disk, Host, Arguments, targets_of}
use n8n_production_systems.Workflows.Sanitize.Command.{main as sanitize_main}
use n8n_production_systems.Workflows.Sanitize.Command.Written.{
  Ended as SanitizeEnded, main-Sanitizes,
}
use n8n_production_systems.Workflows.Snippets.Command.{or_default, main as sync_main}
use n8n_production_systems.Workflows.Snippets.Command.Written.{Ended as SyncEnded, main-Syncs}
use n8n_production_systems.Workflows.Lint.Command.{targets_or, main as lint_main}
use n8n_production_systems.Workflows.Lint.Command.Clean.{HasNoIssue, main-passes_iff}
use n8n_production_systems.Workflows.Sample.{python, snippets, passing}
use n8n_production_systems.Common.{◌≡◌, ◌↔◌, refl, [], ◌∷◌, All, none, true, ok}

abbrev host : Host
host = record {
  loads = λ text. ok (object passing);
  dumps = λ value. ok (codes "{}");
  is_writable = λ path. true;
  json_files = λ directory. none;
  default_workflow_files = codes "w.json" ∷ [];
}

abbrev files : Disk
files = (codes "w.json", codes "{ }") ∷ []

abbrev named : Arguments
named = record { files = codes "w.json" ∷ []; directory = none }

abbrev unnamed : Arguments
unnamed = record { files = []; directory = none }

main-Sanitizes_example :
    SanitizeEnded ascii host (codes "w.json" ∷ []) files (sanitize_main ascii host named [] files)
unfolding targets_of is_member
main-Sanitizes_example =
    main-Sanitizes ascii host named [] (codes "w.json") [] files refl (refl, tt)

main-Syncs_example :
    SyncEnded python snippets host
      (codes "w.json" ∷ [])
      files
      (sync_main python snippets host unnamed files)
unfolding targets_of or_default is_member
main-Syncs_example =
    main-Syncs python snippets host unnamed [] (codes "w.json") [] files refl refl (refl, tt)

main-passes_iff_example :
    (lint_main python snippets host unnamed files ≡ ok 0)
    ↔ All (HasNoIssue python snippets host files) (codes "w.json" ∷ [])
unfolding targets_of targets_or
main-passes_iff_example =
    main-passes_iff python snippets host unnamed [] (codes "w.json") [] files refl refl
