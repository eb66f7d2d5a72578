-- ===== src/Upload/Serve.antt =====
-- What an upload leads to.
use mathlib.Core.Path.{refl}
use n8n_production_systems.Dict.{get, get-put_self, set_default}
use n8n_production_systems.Text.Equality.{text_key, nat_key}
use n8n_production_systems.Documents.{
  NewDocument, StoredDocument, Documents, Files, stored_of, put_document, get_document, put_file,
  get_file,
}
use n8n_production_systems.Documents.Dedup.{Inv, put_document_cases}
use n8n_production_systems.Upload.{
  State, UploadFile, http_error, created, content, filename_or, answer, store_payload, check_type,
  check_payload, upload_document, file_answer, get_file_response,
}
use n8n_production_systems.Upload.Magic.{detect_mime, filename_matches_mime, base_name}
use n8n_production_systems.Upload.Read.{max_upload_bytes, read_limited}
use n8n_production_systems.Upload.Read.Limit.{read_limited_lem}
use n8n_production_systems.Text.{CharDb, Text, is_empty}
use n8n_production_systems.Common.{
  List, String, ℕ, length, Option, ◌≤◌, ◌≡◌, false, some, true, arith, none, ok, inl, ◌++◌, inr,
  ◌∷◌, [], refl, Outcome, subst, Bool-cases, ◌≢◌, if◌then◌else◌, not, raises,
}

-- A file that the guards let through, and its type.
pub record IsAccepted (chars : CharDb) (file : UploadFile) (mime : String) : Type 0 where
  pub small : length file.bytes ≤ max_upload_bytes
  pub not_empty : is_empty file.bytes ≡ false
  pub magic : detect_mime file.bytes ≡ some mime
  pub named : filename_matches_mime chars (base_name (filename_or file.filename)) mime ≡ true

-- the row that such a file makes
abbrev pub document_of : (List ℕ → Text) → UploadFile → String → NewDocument
document_of sha256 file mime = record {
  sha256 = sha256 file.bytes;
  original_filename = base_name (filename_or file.filename);
  mime_type = mime;
  size_bytes = length file.bytes;
  storage_path = sha256 file.bytes;
  source = "upload";
}

module _ (chars : CharDb) (sha256 : List ℕ → Text) where
  read_small : (bytes : List ℕ) → length bytes ≤ max_upload_bytes → read_limited bytes ≡ some bytes
  read_small bytes h = ground (arith, read_limited_lem bytes, h)

  upload_accepted :
      (s : State) (id : ℕ) (file : UploadFile) (mime : String)
      → IsAccepted chars file mime
      → upload_document chars sha256 s id (some file)
        ≡ answer s
            (put_document s.documents id (document_of sha256 file mime))
            (put_file s.files (sha256 file.bytes) file.bytes).1
  unfolding upload_document check_payload check_type store_payload put_file
  upload_accepted s id file mime h =
      rw (read_small file.bytes h.small, h.not_empty, h.magic, h.named)

  answer_not_refused :
      (s : State) (put_it : Outcome StoredDocument × Documents) (files : Files) (code : ℕ)
      (detail : String)
      → (answer s put_it files).0 ≢ http_error code detail
  unfolding answer
  answer_not_refused s (raises e, documents) files code detail h = cc
  answer_not_refused s (ok stored, documents) files code detail h = ground arith

  check_type_refused :
      (s : State) (id : ℕ) (filename : Text) (payload : List ℕ) (mime : Option String) (code : ℕ)
      (detail : String)
      → (check_type chars sha256 s id filename payload mime).0 ≡ http_error code detail
      → (check_type chars sha256 s id filename payload mime).1 ≡ s
  unfolding check_type store_payload
  check_type_refused s id filename payload none code detail h = refl
  check_type_refused s id filename payload (some mime) code detail h =
      elim (Bool-cases (filename_matches_mime chars filename mime)) [
        | inl matches ↦ absurd (
            answer_not_refused s _ _ code detail (
              subst
                (λ b.
                  (if not b
                    then (http_error 415 "magic_mismatch", s)
                    else store_payload chars sha256 s id filename mime payload).0
                  ≡ http_error code detail)
                matches h))
        | inr differs ↦ rw differs refl
      ]

  check_payload_refused :
      (s : State) (id : ℕ) (filename : Option Text) (payload : Option (List ℕ)) (code : ℕ)
      (detail : String)
      → (check_payload chars sha256 s id filename payload).0 ≡ http_error code detail
      → (check_payload chars sha256 s id filename payload).1 ≡ s
  unfolding check_payload
  check_payload_refused s id filename none code detail h = refl
  check_payload_refused s id filename (some []) code detail h = refl
  check_payload_refused s id filename (some (b ∷ bytes)) code detail h =
      check_type_refused s id _ (b ∷ bytes) (detect_mime (b ∷ bytes)) code detail h

  -- An upload that is refused, with whatever status, changes nothing.
  pub upload_refused :
      (s : State) (id : ℕ) (file : Option UploadFile) (code : ℕ) (detail : String)
      → (upload_document chars sha256 s id file).0 ≡ http_error code detail
      → (upload_document chars sha256 s id file).1 ≡ s
  unfolding upload_document
  upload_refused s id none code detail h = refl
  upload_refused s id (some file) code detail h =
      check_payload_refused s id file.filename (read_limited file.bytes) code detail h

  -- what the files hold after a payload is put
  stored_file :
      (files : Files) (digest : Text) (bytes : List ℕ)
      → get files digest ≡ none
      → get_file (put_file files digest bytes).1 digest ≡ ok bytes
  unfolding put_file get_file set_default
  stored_file files digest bytes h = rw (h, get_file, get-put_self files digest bytes) refl

  served :
      (s : State) (id : ℕ) (d : StoredDocument) (bytes : List ℕ)
      → get_document s.documents id ≡ some d
      → get_file s.files d.storage_path ≡ ok bytes
      → get_file_response s id ≡ content bytes d.mime_type
  unfolding get_file_response file_answer
  served s id d bytes found stored = rw (get_file_response, found, stored) refl

  -- A file that the guards accept, whose digest is new to the documents and the files, is stored
  -- under the fresh id: the answer is 201, the workflow is notified of it once, and the document's
  -- file is served with the bytes of the upload and the type found.
  pub upload_new :
      (s : State) (id : ℕ) (file : UploadFile) (mime : String)
      → Inv s.documents
      → IsAccepted chars file mime
      → get s.documents.by_hash (sha256 file.bytes) ≡ none
      → get s.files (sha256 file.bytes) ≡ none
      → let stored = stored_of id (document_of sha256 file mime) in
        let s' = (upload_document chars sha256 s id (some file)).1 in
        ((upload_document chars sha256 s id (some file)).0 ≡ created 201 stored)
        × (s'.notified ≡ s.notified ++ (id, sha256 file.bytes) ∷ [])
        × (get_file_response s' id ≡ content file.bytes mime)
  unfolding answer get_document
  upload_new s id file mime v h new_hash new_file =
      elim (put_document_cases s.documents id (document_of sha256 file mime) v) [
        | inl (old, found, same, put_it) ↦
            let (own, hash, plain) = v.stored old.id old found in
            let known : get s.documents.by_hash (sha256 file.bytes) ≡ some old.id =
              subst (λ x. get s.documents.by_hash x ≡ some old.id) same hash in
            absurd (ground (arith, known, new_hash))
        | inr (new, put_it, found) ↦
            rw (upload_accepted s id file mime h, put_it)
              (
                refl,
                refl,
                served _ id _ file.bytes found
                    (stored_file s.files (sha256 file.bytes) file.bytes new_file),
              )
      ]

  known_lem :
      (s : State) (file : UploadFile) (d : StoredDocument) (id : ℕ) (mime : String)
      → IsAccepted chars file mime
      → put_document s.documents id (document_of sha256 file mime)
        ≡ (ok (record d { deduplicated = true }), s.documents)
      → let s' = (upload_document chars sha256 s id (some file)).1 in
        ((upload_document chars sha256 s id (some file)).0
          ≡ created 200 (record d { deduplicated = true }))
        × (s'.documents ≡ s.documents)
        × (s'.notified ≡ s.notified)
  unfolding answer
  known_lem s file d id mime h put_it =
      rw (upload_accepted s id file mime h, put_it) (refl, refl, refl)

  -- Uploading bytes whose digest is known answers 200 with the document that has the digest, and
  -- neither adds a document nor notifies the workflow.
  pub upload_again :
      (s : State) (id : ℕ) (file : UploadFile) (mime : String) (known : ℕ)
      → Inv s.documents
      → IsAccepted chars file mime
      → get s.documents.by_hash (sha256 file.bytes) ≡ some known
      → let s' = (upload_document chars sha256 s id (some file)).1 in
        (d : StoredDocument) × (get_document s.documents d.id ≡ some d)
        × (d.sha256 ≡ sha256 file.bytes)
        × ((upload_document chars sha256 s id (some file)).0
            ≡ created 200 (record d { deduplicated = true }))
        × (s'.documents ≡ s.documents)
        × (s'.notified ≡ s.notified)
  unfolding answer
  upload_again s id file mime known v h old =
      elim (put_document_cases s.documents id (document_of sha256 file mime) v) [
        | inl (d, found, same, put_it) ↦
            let (code, documents, notified) = known_lem s file d id mime h put_it in
            (d, found, same, code, documents, notified)
        | inr (new, put_it, found) ↦ absurd (cc)
      ]
