-- ===== src/Documents/Tests.antt =====
-- An empty store, at which the theorems are applied.
use n8n_production_systems.Dict.{get}
use n8n_production_systems.Documents.{
  NewDocument, StoredDocument, Documents, stored_of, insert_document, no_documents, put_document,
  get_document,
}
use n8n_production_systems.Documents.Dedup.{Inv, put_document-Inv, put_document_cases}
use n8n_production_systems.Text.Equality.{text_key}
use n8n_production_systems.Text.{codes}
use n8n_production_systems.Common.{refl, ◌≡◌, some, ok, true, ◌⊎◌, none}

abbrev invoice : NewDocument
invoice = record {
  sha256 = codes "ab12";
  original_filename = codes "invoice.pdf";
  mime_type = "application/pdf";
  size_bytes = 4;
  storage_path = codes "ab12";
  source = "upload";
}

no_documents-Inv : Inv no_documents
unfolding get
no_documents-Inv = record { hashed = λ h id e. absurd (cc); stored = λ id d e. absurd (cc) }

put_document-Inv_example : Inv (put_document no_documents 1 invoice).1
unfolding get
put_document-Inv_example = put_document-Inv no_documents 1 invoice no_documents-Inv refl

abbrev stored_once : Documents
stored_once = (put_document no_documents 1 invoice).1

put_document_cases_example :
    ((old : StoredDocument) × (get_document stored_once old.id ≡ some old)
      × (old.sha256 ≡ codes "ab12")
      × (put_document stored_once 2 invoice
          ≡ (ok (record old { deduplicated = true }), stored_once)))
    ⊎ ((get stored_once.by_hash (codes "ab12") ≡ none)
        × (put_document stored_once 2 invoice
            ≡ (ok (stored_of 2 invoice), insert_document stored_once 2 invoice))
        × (get_document (insert_document stored_once 2 invoice) 2 ≡ some (stored_of 2 invoice)))
put_document_cases_example = put_document_cases stored_once 2 invoice put_document-Inv_example
