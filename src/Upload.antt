-- ===== src/Upload.antt =====
-- main.py and magic.py of projects/p02-document-intelligence/backend/src/p02_doc_service: the
-- handlers that take a document and give its file back. The digest (`sha256`) is a parameter; the
-- bytes of a file are numbers.
pub mod Magic
pub mod Read
pub mod Serve
pub mod Guarded
mod Tests
use n8n_production_systems.Documents.{
  NewDocument, StoredDocument, Documents, Files, put_document, get_document, put_file, get_file,
}
use Magic.{detect_mime, filename_matches_mime, base_name}
use Read.{read_limited}
use n8n_production_systems.Text.{Text, CharDb, codes, or_empty, all_ascii, is_empty, text_eq}
use n8n_production_systems.Common.{
  List, Option, ℕ, Outcome, Bool, String, some, ok, raises, if◌then◌else◌, none, length, ◌∷◌, not,
  true, [], ◌++◌, unauthorized, ◌&&◌, type_error,
}

pub record State : Type 0 where
  pub documents : Documents
  pub files : Files
  pub notified : List (ℕ × Text)

-- an `HTTPException`, or the answer
pub data Response : Type 0 where
  http_error : ℕ → String → Response
  created : ℕ → StoredDocument → Response
  content : List ℕ → String → Response
  server_error : Response

-- what an `UploadFile` holds
pub record UploadFile : Type 0 where
  pub filename : Option Text
  pub bytes : List ℕ

-- file.filename or "upload"
abbrev pub filename_or : Option Text → Text
filename_or none = codes "upload"
filename_or (some []) = codes "upload"
filename_or (some (c ∷ s)) = c ∷ s

-- the answer once the document is put
answer : State → Outcome StoredDocument × Documents → Files → Response × State
answer s (raises e, documents) files =
    (server_error, record s { documents = documents; files = files })
answer s (ok stored, documents) files =
    if stored.deduplicated
    then (created 200 stored, record s { documents = documents; files = files })
    else (
      created 201 stored,
      record {
        documents = documents;
        files = files;
        notified = s.notified ++ (stored.id, stored.sha256) ∷ [];
      },
    )

module _ (chars : CharDb) (sha256 : List ℕ → Text) where
  -- storage and documents, behind the guards
  store_payload : State → ℕ → Text → String → List ℕ → Response × State
  unfolding answer
  store_payload s new_id filename mime payload =
      let digest = sha256 payload in
      let (storage_path, files) = put_file s.files digest payload in
      let document : NewDocument = record {
        sha256 = digest;
        original_filename = filename;
        mime_type = mime;
        size_bytes = length payload;
        storage_path = storage_path;
        source = "upload";
      } in
      answer s (put_document s.documents new_id document) files

  check_type : State → ℕ → Text → List ℕ → Option String → Response × State
  unfolding store_payload
  check_type s new_id filename payload none = (http_error 415 "unsupported_type", s)
  check_type s new_id filename payload (some mime) =
      if not (filename_matches_mime chars filename mime)
      then (http_error 415 "magic_mismatch", s)
      else store_payload s new_id filename mime payload

  check_payload : State → ℕ → Option Text → Option (List ℕ) → Response × State
  unfolding check_type
  check_payload s new_id filename none = (http_error 413 "file_too_large", s)
  check_payload s new_id filename (some payload) =
      if is_empty payload
      then (http_error 400 "empty_file", s)
      else check_type s new_id (base_name (filename_or filename)) payload (detect_mime payload)

  pub upload_document : State → ℕ → Option UploadFile → Response × State
  unfolding check_payload
  upload_document s new_id none = (http_error 400 "file_required", s)
  upload_document s new_id (some file) =
      check_payload s new_id file.filename (read_limited file.bytes)

file_answer : StoredDocument → Outcome (List ℕ) → Response
file_answer stored (ok bytes) = content bytes stored.mime_type
file_answer stored (raises e) = http_error 404 "file_missing"

pub get_file_response : State → ℕ → Response
unfolding file_answer
get_file_response s document_id = elim (get_document s.documents document_id) [
  | none ↦ http_error 404 "not_found"
  | some stored ↦ file_answer stored (get_file s.files stored.storage_path)
]
