-- ===== src/Validators/Extraction/Rules.antt =====
-- The results of an extraction.
use mathlib.Core.Path.{refl}
use n8n_production_systems.Validators.Extraction.{ValidateIn, validate_extraction}
use n8n_production_systems.Validators.Result.{RuleResult}
use n8n_production_systems.Validators.BusinessId.Checksum.{business_id_checksum-rule}
use n8n_production_systems.Validators.Iban.{iban_checksum}
use n8n_production_systems.Validators.Iban.Checksum.{iban_checksum-rule}
use n8n_production_systems.Validators.Reference.{reference_number}
use n8n_production_systems.Validators.Reference.Rule.{reference_number-rule}
use n8n_production_systems.Validators.Dates.Calendar.{Date}
use n8n_production_systems.Validators.Dates.Rule.{dates-rule}
use n8n_production_systems.Validators.Vat.{Decimals, VatRatesConfig}
use n8n_production_systems.Validators.Vat.Math.{vat_math-rule}
use n8n_production_systems.Validators.Vat.Rates.{vat_rates-rule}
use n8n_production_systems.Text.{CharDb}
use n8n_production_systems.Common.{
  Outcome, String, List, ◌∷◌, ◌≡◌, [], ok, ◌>>=◌, map, ◌∙◌, raises, some, arith,
}

abbrev pub rule_names : List String
rule_names =
    "business_id_checksum" ∷ "iban_checksum" ∷ "reference_number" ∷ "dates" ∷ "vat_math"
    ∷ "vat_rates" ∷ []

abbrev pub rule_of : RuleResult → String
rule_of r = r.rule

six :
    (m n : Outcome RuleResult) (a d v w : RuleResult) (rs : List RuleResult)
    → ((r : RuleResult) → m ≡ ok r → r.rule ≡ "iban_checksum")
    → ((r : RuleResult) → n ≡ ok r → r.rule ≡ "reference_number")
    → (m >>= λ i. n >>= λ f. ok (a ∷ i ∷ f ∷ d ∷ v ∷ w ∷ [])) ≡ ok rs
    → map rule_of rs ≡ a.rule ∷ "iban_checksum" ∷ "reference_number" ∷ d.rule ∷ v.rule ∷ w.rule ∷ []
six (raises e) n a d v w rs hm hn h = cc
six (ok i) (raises e) a d v w rs hm hn h = cc
six (ok i) (ok f) a d v w rs hm hn h =
    let is : a ∷ i ∷ f ∷ d ∷ v ∷ w ∷ [] ≡ rs = ground (arith, h) in
    rw (← is) (rw (hm i refl, hn f refl) refl)

-- The results of an extraction, if no rule raises, are six: one of each rule, in this order: business ID,
-- IBAN, reference number, dates, VAT arithmetic, VAT rates.
pub validate_extraction-rules :
    {D : Type 0} (o : Decimals D) (chars : CharDb) (body : ValidateIn D) (config : VatRatesConfig D)
    (tolerance : D) (today : Date) (results : List RuleResult)
    → validate_extraction o chars body config tolerance today ≡ ok results
    → map rule_of results ≡ rule_names
unfolding validate_extraction
validate_extraction-rules o chars body config tolerance today results h =
    six (iban_checksum chars body.iban) (reference_number chars body.reference_number) _ _ _ _
      results (iban_checksum-rule chars body.iban)
      (reference_number-rule chars body.reference_number) h
    ∙ rw
        (
          business_id_checksum-rule chars body.supplier_business_id,
          dates-rule chars body.invoice_date body.due_date today,
          vat_math-rule o body.net_total body.vat_total body.gross_total (some body.vat_breakdown)
              tolerance config.rate_unit,
          vat_rates-rule o chars (some body.vat_breakdown) config body.invoice_date,
        )
        refl
