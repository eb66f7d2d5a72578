-- ===== src/Validators/Extraction/Tests.antt =====
-- An extraction that found nothing, at which the theorem is applied.
use mathlib.Core.Path.{refl}
use n8n_production_systems.Validators.Extraction.{ValidateIn, validate_extraction}
use n8n_production_systems.Validators.Extraction.Rules.{rule_of, rule_names}
use n8n_production_systems.Validators.Extraction.Accepted.{
  Passes, IsAccepted, validate_extraction-passed_iff,
}
use n8n_production_systems.Validators.Result.{RuleResult, str}
use n8n_production_systems.Validators.BusinessId.{business_id_checksum}
use n8n_production_systems.Validators.Iban.{iban_checksum}
use n8n_production_systems.Validators.Reference.{reference_number}
use n8n_production_systems.Validators.Dates.{dates}
use n8n_production_systems.Validators.Dates.Calendar.{Date, IsDate, days_in_month, is_leap}
use n8n_production_systems.Validators.Vat.{Decimals, VatRatesConfig, vat_math, vat_rates}
use n8n_production_systems.Text.Strip.{strip}
use n8n_production_systems.Text.Ascii.{ascii}
use n8n_production_systems.Text.{codes}
use n8n_production_systems.Common.{
  ◌≡◌, ◌↔◌, All, arith, map, ℕ, List, [], ◌+◌, none, ok, if◌then◌else◌, ◌∷◌, false, leb, some, ◌-◌,
  ◌*◌, ◌/◌, ltb, ◌==◌,
}

abbrev whole : Decimals ℕ
whole = record {
  zero = 0;
  hundred = 100;
  add = λ a b. a + b;
  sub = λ a b. if leb b a then a - b else b - a;
  mul = λ a b. a * b;
  div = λ a b. a / b;
  abs = λ a. a;
  less = λ a b. ltb a b;
  at_most = λ a b. leb a b;
  equal = λ a b. a == b;
  show_decimal = λ a. codes "";
}

abbrev nothing : ValidateIn ℕ
nothing = record {
  supplier_business_id = none;
  iban = none;
  reference_number = none;
  invoice_date = none;
  due_date = none;
  net_total = none;
  vat_total = none;
  gross_total = none;
  vat_breakdown = [];
}

abbrev no_rates : VatRatesConfig ℕ
no_rates = record { rate_unit = "percent"; rates = [] }

abbrev today : Date
today = record { year = 2024; month = 2; day = 29 }

abbrev results : List RuleResult
results =
    business_id_checksum ascii none
    ∷ record {
      rule = "iban_checksum";
      field = "iban";
      passed = false;
      details = ("reason", str "empty") ∷ [];
    }
    ∷ record {
      rule = "reference_number";
      field = "reference_number";
      passed = false;
      details = ("reason", str "empty") ∷ [];
    }
    ∷ dates ascii none none today
    ∷ vat_math whole none none none (some []) 1 "percent"
    ∷ vat_rates whole ascii (some []) no_rates none
    ∷ []

nothing_found : validate_extraction whole ascii nothing no_rates 1 today ≡ ok results
unfolding validate_extraction iban_checksum reference_number strip
nothing_found = refl

today-IsDate : IsDate today
unfolding days_in_month is_leap
today-IsDate = record {
  year_range = (omega arith, omega arith);
  month_range = (omega arith, omega arith);
  day_range = (omega arith, omega arith);
}

validate_extraction-passed_iff_example :
    (map rule_of results ≡ rule_names)
    × (All Passes results ↔ IsAccepted whole ascii nothing no_rates 1 today)
validate_extraction-passed_iff_example =
    validate_extraction-passed_iff whole ascii nothing no_rates 1 today results today-IsDate
      nothing_found
