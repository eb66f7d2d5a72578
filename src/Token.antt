-- ===== src/Token.antt =====
-- `require_internal_token`, in main.py of projects/p01-lead-qualification/backend/src/p01_backend and
-- of projects/p02-document-intelligence/backend/src/p02_doc_service: the endpoints stand behind it.
use n8n_production_systems.Text.{Text, or_empty, all_ascii, text_eq}
use n8n_production_systems.Text.Digest.{compare_digest}
use n8n_production_systems.Text.Equality.{text_eq_iff}
use n8n_production_systems.Common.{
  Bool, true, ◌&&◌, if◌then◌else◌, Option, Outcome, ok, raises, unauthorized, type_error, ◌≡◌, ◌⊎◌,
  refl, inl, inr, Bool-cases,
}

passed : Outcome Bool → Outcome Bool
passed (raises e) = raises e
passed (ok same) = if same then ok true else raises unauthorized

-- an exception for a header that is not the token
unfoldable pub require_internal_token : Text → Option Text → Outcome Bool
unfolding passed
require_internal_token expected header = passed (compare_digest (or_empty header) expected)

-- The token is the one that is expected, or the check raises.
pub require_internal_token_cases :
    (expected : Text) (header : Option Text)
    → ((or_empty header ≡ expected) × (require_internal_token expected header ≡ ok true))
      ⊎ (require_internal_token expected header ≡ raises unauthorized)
      ⊎ (require_internal_token expected header ≡ raises type_error)
unfolding require_internal_token passed compare_digest
require_internal_token_cases expected header =
    elim (Bool-cases (all_ascii (or_empty header) && all_ascii expected)) [
      | inr odd ↦ inr (inr (rw odd refl))
      | inl plain ↦ elim (Bool-cases (text_eq (or_empty header) expected)) [
        | inl same ↦ inl ((text_eq_iff (or_empty header) expected).0 same, rw (plain, same) refl)
        | inr other ↦ inr (inl (rw (plain, other) refl))
      ]
    ]
