-- ===== src/Workflows/Sanitize/Command.antt =====
-- The command line of scripts/sanitize_workflows.py: each file is rewritten in place.
pub mod Written
use n8n_production_systems.Json.{Json}
use n8n_production_systems.Text.{Text, CharDb, text_eq}
use n8n_production_systems.Workflows.Sanitize.{sanitize_document}
use n8n_production_systems.Workflows.Files.{
  Disk, Host, Arguments, read_text, load_json_text, dumps_stable, write_text, targets_of,
  process_all, is_encodable,
}
use n8n_production_systems.Common.{
  ℕ, Bool, true, false, Option, none, some, if◌then◌else◌, List, [], ◌∷◌, Outcome, ok, raises,
  ◌>>=◌, Exception, decode_error, sanitize_error, encode_error,
}

-- the exit code and what is written to the standard output
pub record Exit : Type 0 where
  pub code : ℕ
  pub out : Text

unfoldable pub exit_of : Outcome Bool → Outcome Exit
exit_of (ok failed) = ok (record { code = if failed then 1 else 0; out = [] })
exit_of (raises e) = raises e

-- what the command does without a file: only these two exceptions are caught
unfoldable pub printed : Outcome Text → Outcome Exit
printed (ok text) =
    if is_encodable text then ok (record { code = 0; out = text }) else raises encode_error
printed (raises decode_error) = ok (record { code = 2; out = [] })
printed (raises sanitize_error) = ok (record { code = 1; out = [] })
printed (raises e) = raises e

module _ (chars : CharDb) (host : Host) where
  unfoldable pub process_text : Text → Outcome Text
  process_text text = do
    value ← load_json_text host text
    sanitized ← sanitize_document chars value
    dumps_stable host sanitized

  unfoldable pub rewrite : Text → Disk → Text → Outcome Text → Outcome Bool × Disk
  rewrite path files original (raises e) = (raises e, files)
  rewrite path files original (ok updated) =
      if text_eq updated original then (ok false, files) else write_text host files path updated

  unfoldable pub process_read : Text → Disk → Outcome Text → Outcome Bool × Disk
  unfolding process_text rewrite
  process_read path files (raises e) = (raises e, files)
  process_read path files (ok original) = rewrite path files original (process_text original)

  unfoldable pub process_file : Text → Disk → Outcome Bool × Disk
  unfolding process_read
  process_file path files = process_read path files (read_text files path)

  unfoldable pub process_targets : Text → Disk → List Text → Outcome Exit × Disk
  unfolding exit_of printed process_file
  process_targets stdin files [] = (printed (process_text stdin), files)
  process_targets stdin files (path ∷ paths) =
      let (failed, written) = process_all process_file (path ∷ paths) files in
      (exit_of failed, written)

  started : Text → Disk → Option (List Text) → Outcome Exit × Disk
  unfolding process_targets
  started stdin files none = (ok (record { code = 2; out = [] }), files)
  started stdin files (some targets) = process_targets stdin files targets

  unfoldable pub main : Arguments → Text → Disk → Outcome Exit × Disk
  unfolding started
  main args stdin files = started stdin files (targets_of host args)
