-- ===== src/Upload/Tests.antt =====
-- A small PDF file, at which the theorems are applied. The digest of a file is its bytes.
use n8n_production_systems.Dict.{get, put}
use n8n_production_systems.Documents.{
  StoredDocument, no_documents, stored_of, get_document, put_document, insert_document,
}
use n8n_production_systems.Documents.Dedup.{Inv, put_document-Inv}
use n8n_production_systems.Upload.{
  State, UploadFile, http_error, created, content, upload_document, get_file_response,
}
use n8n_production_systems.Upload.Magic.{
  detect_mime, filename_matches_mime, base_name, mime_of_suffix, suffix, last_dot, name_from,
}
use n8n_production_systems.Upload.Read.{max_upload_bytes, read_limited}
use n8n_production_systems.Upload.Read.Limit.{read_limited_lem}
use n8n_production_systems.Upload.Serve.{IsAccepted, document_of, upload_new, upload_again}
use n8n_production_systems.Text.{Text, codes, starts_with, text_eq}
use n8n_production_systems.Text.Ascii.{ascii}
use n8n_production_systems.Common.{
  none, some, List, arith, ◌≡◌, [], ◌∷◌, if◌then◌else◌, ℕ, refl, true, leb, length,
}

abbrev digest : List ℕ → Text
digest bytes = bytes

abbrev empty : State
empty = record { documents = no_documents; files = []; notified = [] }

abbrev pdf : UploadFile
pdf = record { filename = some (codes "in/Invoice.PDF"); bytes = codes "%PDF-1" }

pdf-IsAccepted : IsAccepted ascii pdf "application/pdf"
unfolding detect_mime starts_with filename_matches_mime base_name mime_of_suffix suffix last_dot
    name_from text_eq
pdf-IsAccepted = record { small = omega arith; not_empty = refl; magic = refl; named = refl }

no_documents-Inv : Inv no_documents
unfolding get
no_documents-Inv = record { hashed = λ h id e. absurd (cc); stored = λ id d e. absurd (cc) }

upload_new_example :
    let s' = (upload_document ascii digest empty 1 (some pdf)).1 in
    ((upload_document ascii digest empty 1 (some pdf)).0
      ≡ created 201 (stored_of 1 (document_of digest pdf "application/pdf")))
    × (s'.notified ≡ (1, codes "%PDF-1") ∷ [])
    × (get_file_response s' 1 ≡ content (codes "%PDF-1") "application/pdf")
unfolding get
upload_new_example =
    upload_new ascii digest empty 1 pdf "application/pdf" no_documents-Inv pdf-IsAccepted refl refl

refused : (upload_document ascii digest empty 1 none).0 ≡ http_error 400 "file_required"
unfolding upload_document
refused = refl

read_limited_lem_example :
    read_limited (codes "%PDF-1")
    ≡ (if leb (length (codes "%PDF-1")) max_upload_bytes then some (codes "%PDF-1") else none)
read_limited_lem_example = read_limited_lem (codes "%PDF-1")

abbrev with_pdf : State
with_pdf = record empty {
  documents = (put_document no_documents 1 (document_of digest pdf "application/pdf")).1;
}

upload_again_example :
    let s' = (upload_document ascii digest with_pdf 2 (some pdf)).1 in
    (d : StoredDocument) × (get_document with_pdf.documents d.id ≡ some d)
    × (d.sha256 ≡ codes "%PDF-1")
    × ((upload_document ascii digest with_pdf 2 (some pdf)).0
        ≡ created 200 (record d { deduplicated = true }))
    × (s'.documents ≡ with_pdf.documents)
    × (s'.notified ≡ [])
unfolding get put put_document insert_document text_eq
upload_again_example =
    upload_again ascii digest with_pdf 2 pdf "application/pdf" 1
      (put_document-Inv no_documents 1 (document_of digest pdf "application/pdf") no_documents-Inv
        refl)
      pdf-IsAccepted refl
