-- ===== src/Workflows/Files.antt =====
-- What the command lines of the scripts share: the files they read and write, and the loop over the
-- files they are given. A file is a UTF-8 text; a path is a text.
pub mod Laws
pub mod Steps
use n8n_production_systems.Dict.{get, put}
use n8n_production_systems.Json.{Json}
use n8n_production_systems.Text.{Text}
use n8n_production_systems.Text.Lines.{universal}
use n8n_production_systems.Text.Equality.{text_key}
use n8n_production_systems.Common.{
  ℕ, Bool, true, false, Option, none, some, if◌then◌else◌, List, [], ◌∷◌, ◌++◌, Outcome, ok, raises,
  file_not_found, permission_error, decode_error, encode_error, not, ◌&&◌, leb, sanitize_error,
  sync_error, Exception, ◌>>=◌,
}

abbrev pub Disk : Type 0
Disk = List (Text × Text)

-- `json.loads`, which raises a `JSONDecodeError`, or a `ValueError` or `RecursionError` for what it
-- cannot hold; `json.dumps` with the options of `dumps_stable`; whether a file can be opened for
-- writing; the sorted JSON files under a directory, if it is one; and the workflow files of the
-- repository.
pub record Host : Type 0 where
  pub loads : Text → Outcome Json
  pub dumps : Json → Outcome Text
  pub is_writable : Text → Bool
  pub json_files : Text → Option (List Text)
  pub default_workflow_files : List Text

found_text : Option Text → Outcome Text
found_text none = raises file_not_found
found_text (some text) = ok (universal text)

unfoldable pub read_text : Disk → Text → Outcome Text
unfolding found_text
read_text files path = found_text (get files path)

-- UTF-8 has every character but the surrogates.
unfoldable pub is_encodable : Text → Bool
is_encodable [] = true
is_encodable (c ∷ s) = not (leb 0xd800 c && leb c 0xdfff) && is_encodable s

pub record Arguments : Type 0 where
  pub files : List Text
  pub directory : Option Text

module _ (host : Host) where
  unfoldable pub load_json_text : Text → Outcome Json
  load_json_text text = host.loads text

  unfoldable pub dumps_stable : Json → Outcome Text
  dumps_stable value = do text ← host.dumps value; ok (text ++ 10 ∷ [])

  -- path.write_text(text, newline="\n"): the file is emptied before the text is encoded.
  unfoldable pub write_text : Disk → Text → Text → Outcome Bool × Disk
  write_text files path text =
      if host.is_writable path
      then (if is_encodable text
          then (ok true, put files path text)
          else (raises encode_error, put files path []))
      else (raises permission_error, files)

  -- the files that are named and those under the directory; none where it is not a directory
  unfoldable pub targets_of : Arguments → Option (List Text)
  targets_of args = elim args.directory [
    | none ↦ some args.files
    | some directory ↦ elim (host.json_files directory) [
      | none ↦ none
      | some found ↦ some (args.files ++ found)
    ]
  ]

-- `OSError`, `JSONDecodeError`, `SanitizeError` and `SyncError`
unfoldable pub is_reported : Exception → Bool
is_reported file_not_found = true
is_reported permission_error = true
is_reported decode_error = true
is_reported sanitize_error = true
is_reported sync_error = true
is_reported _ = false

unfoldable pub also_failed : Outcome Bool × Disk → Outcome Bool × Disk
also_failed (ok _, files) = (ok true, files)
also_failed (raises e, files) = (raises e, files)

-- The loop over the files, and whether one failed. An exception that is reported lets it go on.
module _ {A : Type 0} (process_file : Text → Disk → Outcome A × Disk) where
  -- `rest` is what the loop over the other files comes to
  after_file : Outcome A → Disk → Outcome Bool × Disk → Outcome Bool × Disk
  unfolding also_failed is_reported
  after_file (ok _) written rest = rest
  after_file (raises e) written rest =
      if is_reported e then also_failed rest else (raises e, written)

  unfoldable pub process_all : List Text → Disk → Outcome Bool × Disk
  unfolding after_file
  process_all [] files = (ok false, files)
  process_all (path ∷ paths) files =
      let (result, written) = process_file path files in
      let rest = process_all paths written in after_file result written rest
