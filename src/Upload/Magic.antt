-- ===== src/Upload/Magic.antt =====
-- magic.py: the type of a file by its first bytes and by its name.
use text.Mathlib.Text.{◌==◌ as str_eq}
use n8n_production_systems.Common.{
  List, String, Option, ℕ, if◌then◌else◌, [], Bool, ◌∷◌, none, some, true, ◌||◌, ◌==◌, ◌++◌, false,
}
use n8n_production_systems.Text.{CharDb, Text, is_empty, starts_with, codes, text_eq}

abbrev pub pdf_magic : List ℕ
pdf_magic = codes "%PDF"

abbrev pub png_magic : List ℕ
png_magic = 0x89 ∷ 0x50 ∷ 0x4e ∷ 0x47 ∷ 0x0d ∷ 0x0a ∷ 0x1a ∷ 0x0a ∷ []

abbrev pub jpeg_magic : List ℕ
jpeg_magic = 0xff ∷ 0xd8 ∷ 0xff ∷ []

unfoldable pub detect_mime : List ℕ → Option String
detect_mime bytes =
    if starts_with pdf_magic bytes
    then some "application/pdf"
    else if starts_with png_magic bytes
    then some "image/png"
    else if starts_with jpeg_magic bytes
    then some "image/jpeg"
    else none

-- The last part of a path between slashes that is neither empty nor a point: `Path(s).name`.
unfoldable pub name_from : Text → Text → Text → Text
name_from found part [] = if is_empty part || text_eq part (codes ".") then found else part
name_from found part (c ∷ s) = elim (c == b'/') [
  | true ↦ name_from (if is_empty part || text_eq part (codes ".") then found else part) [] s
  | false ↦ name_from found (part ++ c ∷ []) s
]

unfoldable pub base_name : Text → Text
unfolding name_from
base_name s = name_from [] [] s

-- the parts before and behind the last point
unfoldable pub last_dot : Text → Option (Text × Text)
last_dot [] = none
last_dot (c ∷ s) = elim (last_dot s) [
  | some (stem, ext) ↦ some (c ∷ stem, ext)
  | none ↦ if c == b'.' then some ([], s) else none
]

-- `Path(name).suffix`
unfoldable pub suffix : Text → Text
unfolding last_dot
suffix name = elim (last_dot name) [
  | none ↦ []
  | some (stem, ext) ↦ if is_empty stem || is_empty ext then [] else b'.' ∷ ext
]

unfoldable pub mime_of_suffix : Text → Option String
mime_of_suffix ext =
    if text_eq ext (codes ".pdf")
    then some "application/pdf"
    else if text_eq ext (codes ".png")
    then some "image/png"
    else if text_eq ext (codes ".jpg")
    then some "image/jpeg"
    else if text_eq ext (codes ".jpeg")
    then some "image/jpeg"
    else none

unfoldable pub filename_matches_mime : CharDb → Text → String → Bool
filename_matches_mime chars filename mime =
    elim (mime_of_suffix (suffix (chars.lower (base_name filename)))) [
      | none ↦ true
      | some expected ↦ str_eq expected mime
    ]
