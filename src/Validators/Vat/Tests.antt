-- ===== src/Validators/Vat/Tests.antt =====
-- An invoice of one line, at which the theorems are applied. Whole numbers stand for the decimals; a
-- difference of two is how far they are apart.
use n8n_production_systems.Validators.Vat.{Decimals, VatLine, VatRatesConfig, vat_rates}
use n8n_production_systems.Validators.Vat.Rates.{HasKnownRates, vat_rates-passed_iff}
use n8n_production_systems.Text.{codes}
use n8n_production_systems.Text.Show.{show}
use n8n_production_systems.Text.Ascii.{ascii}
use n8n_production_systems.Common.{
  ℕ, some, ◌∷◌, ◌+◌, if◌then◌else◌, [], ◌≡◌, leb, true, ◌-◌, ◌↔◌, ◌*◌, ◌/◌, ltb, ◌==◌,
}

abbrev whole : Decimals ℕ
whole = record {
  zero = 0;
  hundred = 100;
  add = λ a b. a + b;
  sub = λ a b. if leb b a then a - b else b - a;
  mul = λ a b. a * b;
  div = λ a b. a / b;
  abs = λ a. a;
  less = λ a b. ltb a b;
  at_most = λ a b. leb a b;
  equal = λ a b. a == b;
  show_decimal = show;
}

abbrev line : VatLine ℕ
line = record { rate = 24; base = 100; vat = 24 }

abbrev config : VatRatesConfig ℕ
config = record {
  rate_unit = "percent";
  rates =
      record { rate = 24; valid_from = codes "2013-01-01"; label = codes "standard" }
      ∷ record { rate = 14; valid_from = codes "2013-01-01"; label = codes "food" }
      ∷ [];
}

vat_rates-passed_iff_example :
    ((vat_rates whole ascii (some (line ∷ [])) config (some (codes "1.2.2024"))).passed ≡ true)
    ↔ HasKnownRates whole ascii (line ∷ []) config (some (codes "1.2.2024"))
vat_rates-passed_iff_example =
    vat_rates-passed_iff whole ascii (line ∷ []) config (some (codes "1.2.2024"))
