-- ===== src/Validators/Extraction/Accepted.antt =====
-- When an extraction passes every rule.
use n8n_production_systems.Validators.Extraction.{ValidateIn, validate_extraction}
use n8n_production_systems.Validators.Extraction.Rules.{
  rule_of, rule_names, validate_extraction-rules,
}
use n8n_production_systems.Validators.Result.{RuleResult, is_pass}
use n8n_production_systems.Validators.BusinessId.{business_id_checksum}
use n8n_production_systems.Validators.BusinessId.Checksum.{
  Accepted, business_id_checksum-passed_iff,
}
use n8n_production_systems.Validators.Iban.{iban_checksum}
use n8n_production_systems.Validators.Reference.{reference_number}
use n8n_production_systems.Validators.Dates.{dates}
use n8n_production_systems.Validators.Dates.Calendar.{Date, IsDate}
use n8n_production_systems.Validators.Dates.Rule.{IsTimely, dates-passed_iff}
use n8n_production_systems.Validators.Vat.{Decimals, VatLine, VatRatesConfig, vat_math, vat_rates}
use n8n_production_systems.Validators.Vat.Math.{IsConsistent, vat_math-passed_iff}
use n8n_production_systems.Validators.Vat.Rates.{HasKnownRates, vat_rates-passed_iff}
use n8n_production_systems.Text.{CharDb}
use n8n_production_systems.Common.{
  String, List, ◌∷◌, ◌≡◌, ◌↔◌, [], ok, bind_ok, map, some, true, All, arith, sym, subst, refl, ap,
  ◌∙◌, Option, none,
}

ok_injective : {A : Type 0} {a b : A} → ok a ≡ ok b → a ≡ b
ok_injective h = ground arith

-- the result of a rule passes
abbrev pub Passes : RuleResult → Type 0
Passes r = r.passed ≡ true

module _ {D : Type 0} (o : Decimals D) (chars : CharDb) where
  -- The three totals are there, and they and the lines are consistent.
  abbrev pub HasTotals : ValidateIn D → VatRatesConfig D → D → Type 0
  HasTotals body config tolerance =
      (net : D) × (vat : D) × (gross : D) × (body.net_total ≡ some net)
      × (body.vat_total ≡ some vat)
      × (body.gross_total ≡ some gross)
      × IsConsistent o net vat gross body.vat_breakdown tolerance config.rate_unit

  -- What the rules ask of an extraction, each of its own fields.
  pub record IsAccepted (body : ValidateIn D) (config : VatRatesConfig D) (tolerance : D)
      (today : Date) : Type 0 where
    pub supplier : Accepted chars body.supplier_business_id
    pub iban_passes : is_pass (iban_checksum chars body.iban) ≡ true
    pub reference_passes : is_pass (reference_number chars body.reference_number) ≡ true
    pub timely : IsTimely chars body.invoice_date body.due_date today
    pub consistent : HasTotals body config tolerance
    pub known_rates : HasKnownRates o chars body.vat_breakdown config body.invoice_date

  totals_given :
      (net vat gross : Option D) (lines : List (VatLine D)) (tolerance : D) (unit : String)
      → (vat_math o net vat gross (some lines) tolerance unit).passed ≡ true
      → (n : D) × (v : D) × (g : D) × (net ≡ some n)
        × (vat ≡ some v)
        × (gross ≡ some g)
        × IsConsistent o n v g lines tolerance unit
  unfolding vat_math
  totals_given (some n) (some v) (some g) lines tolerance unit h =
      (n, v, g, refl, refl, refl, (vat_math-passed_iff o n v g lines tolerance unit).0 h)
  totals_given none vat gross lines tolerance unit h = absurd (ground arith)
  totals_given (some n) none gross lines tolerance unit h = absurd (ground arith)
  totals_given (some n) (some v) none lines tolerance unit h = absurd (ground arith)

  totals_pass :
      (body : ValidateIn D) (config : VatRatesConfig D) (tolerance : D)
      → HasTotals body config tolerance
      → Passes (
          vat_math o body.net_total body.vat_total body.gross_total
            (some body.vat_breakdown)
            tolerance
            config.rate_unit)
  totals_pass body config tolerance (net, vat, gross, at_net, at_vat, at_gross, consistent) =
      rw (at_net, at_vat, at_gross)
        ((vat_math-passed_iff o net vat gross body.vat_breakdown tolerance config.rate_unit).1
          consistent)

  -- The results of an extraction, if no rule raises, are six: one of each rule, in this order: business
  -- ID, IBAN, reference number, dates, VAT arithmetic, VAT rates. All of them pass exactly if the
  -- business ID, the IBAN and the reference number pass the rules of their checksums, the dates are
  -- timely, the totals are there and consistent with the lines, and the lines have known rates.
  pub validate_extraction-passed_iff :
      (body : ValidateIn D) (config : VatRatesConfig D) (tolerance : D) (today : Date)
      (results : List RuleResult)
      → IsDate today
      → validate_extraction o chars body config tolerance today ≡ ok results
      → (map rule_of results ≡ rule_names)
        × (All Passes results ↔ IsAccepted body config tolerance today)
  unfolding validate_extraction
  validate_extraction-passed_iff body config tolerance today results date h =
      let (i, at_iban, rest) = bind_ok (iban_checksum chars body.iban) _ results h in
      let (f, at_reference, last) =
        bind_ok (reference_number chars body.reference_number) _ results rest in
      let supplier = business_id_checksum chars body.supplier_business_id in
      let day = dates chars body.invoice_date body.due_date today in
      let sums =
        vat_math o body.net_total body.vat_total body.gross_total (some body.vat_breakdown)
          tolerance config.rate_unit in
      let rates = vat_rates o chars (some body.vat_breakdown) config body.invoice_date in
      let six : supplier ∷ i ∷ f ∷ day ∷ sums ∷ rates ∷ [] ≡ results = ok_injective last in
      let supplier_iff = business_id_checksum-passed_iff chars body.supplier_business_id in
      let day_iff = dates-passed_iff chars body.invoice_date body.due_date today date in
      let rates_iff = vat_rates-passed_iff o chars body.vat_breakdown config body.invoice_date in
      (
        validate_extraction-rules o chars body config tolerance today results h,
        subst (λ rs. All Passes rs ↔ IsAccepted body config tolerance today) six
            (
              λ (p, (q, (r, (s, (t, (u, _)))))). record {
                supplier = supplier_iff.0 p;
                iban_passes = ap is_pass at_iban ∙ q;
                reference_passes = ap is_pass at_reference ∙ r;
                timely = day_iff.0 s;
                consistent =
                    totals_given body.net_total body.vat_total body.gross_total body.vat_breakdown
                      tolerance config.rate_unit t;
                known_rates = rates_iff.0 u;
              },
              λ k. (
                supplier_iff.1 k.supplier,
                (
                  sym (ap is_pass at_iban) ∙ k.iban_passes,
                  (
                    sym (ap is_pass at_reference) ∙ k.reference_passes,
                    (
                      day_iff.1 k.timely,
                      (
                        totals_pass body config tolerance k.consistent,
                        (rates_iff.1 k.known_rates, tt),
                      ),
                    ),
                  ),
                ),
              ),
            ),
      )
