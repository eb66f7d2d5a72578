-- ===== src/Workflows/Files/Laws.antt =====
-- What a loop over files comes to, if each step of it keeps what the earlier ones brought about.
use n8n_production_systems.Dict.{get, put, get-put}
use n8n_production_systems.Text.{Text, text_eq}
use n8n_production_systems.Text.Equality.{text_key}
use n8n_production_systems.Text.Lines.{universal, universal-universal}
use n8n_production_systems.Workflows.Files.{Disk, read_text, is_reported, found_text}
use n8n_production_systems.Common.{
  ◌≡◌, refl, inl, inr, true, Bool-cases, Option, none, some, ok, raises, Exception, arith, subst,
  if◌then◌else◌,
}

-- A file that was written is read with the ends of its lines translated, and no other file changes.
pub read_text-put :
    (files : Disk) (path text other : Text)
    → read_text (put files path text) other
      ≡ (if text_eq path other then ok (universal text) else read_text files other)
unfolding read_text found_text
read_text-put files path text other = elim (Bool-cases (text_eq path other)) [
  | inl same ↦ rw (get-put files path other text, same) refl
  | inr apart ↦ rw (get-put files path other text, apart) refl
]

found_text-raises :
    (found : Option Text) (e : Exception) → found_text found ≡ raises e → is_reported e ≡ true
unfolding found_text is_reported
found_text-raises none e h = ground arith
found_text-raises (some text) e h = cc

pub read_text-raises :
    (files : Disk) (path : Text) (e : Exception)
    → read_text files path ≡ raises e
    → is_reported e ≡ true
unfolding read_text
read_text-raises files path e h = found_text-raises (get files path) e h

found_text-universal :
    (found : Option Text) (text : Text) → found_text found ≡ ok text → universal text ≡ text
unfolding found_text
found_text-universal none text h = cc
found_text-universal (some stored) text h =
    let same : universal stored ≡ text = ground arith in
    subst (λ t. universal t ≡ t) same (universal-universal stored)

-- The text of a file that was read has its lines ended already.
pub read_text-universal :
    (files : Disk) (path text : Text) → read_text files path ≡ ok text → universal text ≡ text
unfolding read_text
read_text-universal files path text h = found_text-universal (get files path) text h
