-- ===== src/Workflows/Sanitize/Laws.antt =====
-- What the sanitiser promises of a document that it lets through.
pub mod Dropped
pub mod Refused
use n8n_production_systems.Json.{Json}
use n8n_production_systems.Text.{CharDb, is_empty}
use n8n_production_systems.Workflows.Sanitize.{sanitize_document, strip_value}
use n8n_production_systems.Workflows.Sanitize.Secrets.{collect_strings, find_secret_matches}
use Dropped.{Clean, strip_value-Clean, strip_value_self}
use Refused.{any_text, has_secret, find_secret_matches_lem, any_text-strip_value}
use n8n_production_systems.Common.{
  [], ◌≡◌, refl, false, true, not, Bool-cases, inl, inr, arith, Outcome, ok, raises, ◌∙◌, sym,
  sanitize_error, if◌then◌else◌, subst,
}

module _ (chars : CharDb) where
  -- A document is refused exactly if one of its texts matches one of the secret patterns; otherwise
  -- it comes back stripped.
  pub sanitize_document_lem :
      (value : Json)
      → sanitize_document chars value ≡ (
          if any_text (has_secret chars) (collect_strings value)
          then raises sanitize_error
          else ok (strip_value [] value))
  unfolding sanitize_document
  sanitize_document_lem value = ground (arith, find_secret_matches_lem chars value)

  -- A document that the sanitiser lets through has no item that is to be dropped and no text that
  -- matches a secret pattern, and sanitising it again gives it back as it is.
  pub sanitize_document-Clean :
      (value out : Json)
      → sanitize_document chars value ≡ ok out
      → Clean [] out
        × (any_text (has_secret chars) (collect_strings out) ≡ false)
        × (sanitize_document chars out ≡ ok out)
  sanitize_document-Clean value out h =
      elim (Bool-cases (any_text (has_secret chars) (collect_strings value))) [
        | inl secret ↦ absurd (ground (arith, sanitize_document_lem value))
        | inr plain ↦
            let same : strip_value [] value ≡ out = ground (arith, sanitize_document_lem value) in
            let clean : Clean [] out = subst (Clean []) same (strip_value-Clean [] value) in
            let quiet : any_text (has_secret chars) (collect_strings out) ≡ false =
              rw (sym same) (any_text-strip_value (has_secret chars) [] value plain) in
            (
              clean,
              quiet,
              rw (sanitize_document_lem out, quiet, strip_value_self [] out clean) refl,
            )
      ]
