-- ===== src/Validators/Extraction.antt =====
-- `validate_extraction` of main.py: the rules over one extraction, in their order.
pub mod Rules
pub mod Accepted
mod Tests
use n8n_production_systems.Text.{Text, CharDb}
use n8n_production_systems.Validators.Result.{RuleResult}
use n8n_production_systems.Validators.BusinessId.{business_id_checksum}
use n8n_production_systems.Validators.Iban.{iban_checksum}
use n8n_production_systems.Validators.Reference.{reference_number}
use n8n_production_systems.Validators.Dates.{dates}
use n8n_production_systems.Validators.Dates.Calendar.{Date}
use n8n_production_systems.Validators.Vat.{Decimals, VatLine, VatRatesConfig, vat_math, vat_rates}
use n8n_production_systems.Common.{◌>>=◌, Outcome, Option, List, ok, ◌∷◌, some, []}

pub record ValidateIn (D : Type 0) : Type 0 where
  pub supplier_business_id : Option Text
  pub iban : Option Text
  pub reference_number : Option Text
  pub invoice_date : Option Text
  pub due_date : Option Text
  pub net_total : Option D
  pub vat_total : Option D
  pub gross_total : Option D
  pub vat_breakdown : List (VatLine D)

-- `today` is what `today_helsinki` returns, and the tolerance is that of decision.yaml
unfoldable pub validate_extraction :
    {D : Type 0}
    → Decimals D
    → CharDb
    → ValidateIn D
    → VatRatesConfig D
    → D
    → Date
    → Outcome (List RuleResult)
validate_extraction o chars body vat_config money_tolerance today = do
  iban_result ← iban_checksum chars body.iban
  reference_result ← reference_number chars body.reference_number
  ok (
      business_id_checksum chars body.supplier_business_id
      ∷ iban_result
      ∷ reference_result
      ∷ dates chars body.invoice_date body.due_date today
      ∷ vat_math o body.net_total body.vat_total body.gross_total (some body.vat_breakdown)
          money_tolerance vat_config.rate_unit
      ∷ vat_rates o chars (some body.vat_breakdown) vat_config body.invoice_date
      ∷ [])
