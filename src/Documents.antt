-- ===== src/Documents.antt =====
-- The document service's two stores: documents.py (`MemoryDocuments`) and storage.py
-- (`MemoryStorage`) of projects/p02-document-intelligence/backend/src/p02_doc_service. A UUID is a
-- number, and the one that `uuid4` makes is an argument. The lock makes each call one step. The
-- stores over Postgres and over a file system are not modelled.
pub mod Dedup
mod Tests
use n8n_production_systems.Dict.{get, put, set_default}
use n8n_production_systems.Text.Equality.{text_key, nat_key}
use n8n_production_systems.Text.{Text}
use n8n_production_systems.Common.{
  [], Option, List, ℕ, Bool, false, String, Outcome, some, raises, key_error, ok, none, true,
  file_not_found,
}

pub record NewDocument : Type 0 where
  pub sha256 : Text
  pub original_filename : Text
  pub mime_type : String
  pub size_bytes : ℕ
  pub storage_path : Text
  pub source : String

pub record StoredDocument : Type 0 where
  pub id : ℕ
  pub sha256 : Text
  pub original_filename : Text
  pub mime_type : String
  pub size_bytes : ℕ
  pub storage_path : Text
  pub source : String
  pub status : String
  pub deduplicated : Bool

pub record Documents : Type 0 where
  pub by_id : List (ℕ × StoredDocument)
  pub by_hash : List (Text × ℕ)

abbrev pub no_documents : Documents
no_documents = record { by_id = []; by_hash = [] }

abbrev pub stored_of : ℕ → NewDocument → StoredDocument
stored_of id document = record {
  id = id;
  sha256 = document.sha256;
  original_filename = document.original_filename;
  mime_type = document.mime_type;
  size_bytes = document.size_bytes;
  storage_path = document.storage_path;
  source = document.source;
  status = "received";
  deduplicated = false;
}

-- `self._by_id[existing_id]`, which may raise a `KeyError`
abbrev existing : Documents → Option StoredDocument → Outcome StoredDocument × Documents
existing s none = (raises key_error, s)
existing s (some current) = (ok (record current { deduplicated = true }), s)

unfoldable pub insert_document : Documents → ℕ → NewDocument → Documents
insert_document s new_id document = record {
  by_id = put s.by_id new_id (stored_of new_id document);
  by_hash = put s.by_hash document.sha256 new_id;
}

unfoldable pub put_document : Documents → ℕ → NewDocument → Outcome StoredDocument × Documents
unfolding insert_document
put_document s new_id document = elim (get s.by_hash document.sha256) [
  | some existing_id ↦ existing s (get s.by_id existing_id)
  | none ↦ (ok (stored_of new_id document), insert_document s new_id document)
]

unfoldable pub get_document : Documents → ℕ → Option StoredDocument
get_document s document_id = get s.by_id document_id

-- MemoryStorage: the path of a file is its digest
abbrev pub Files : Type 0
Files = List (Text × List ℕ)

unfoldable pub put_file : Files → Text → List ℕ → Text × Files
put_file files digest bytes = (digest, set_default files digest bytes)

unfoldable pub get_file : Files → Text → Outcome (List ℕ)
get_file files storage_path = elim (get files storage_path) [
  | none ↦ raises file_not_found
  | some bytes ↦ ok bytes
]

pub file_exists : Files → Text → Bool
file_exists files digest = elim (get files digest) [ none ↦ false | some bytes ↦ true ]
