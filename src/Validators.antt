-- ===== src/Validators.antt =====
-- The document validators: projects/p02-document-intelligence/backend/src/p02_doc_service/validators.
-- Each is a pure function into `RuleResult`.
pub mod Result
pub mod Codes
pub mod BusinessId
pub mod Iban
pub mod Reference
pub mod Dates
pub mod Vat
pub mod Extraction
