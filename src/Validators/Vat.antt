-- ===== src/Validators/Vat.antt =====
-- validators/vat.py: the arithmetic of VAT and the rates in force, over the operations of `Decimal`.
-- The totals and lines of a request are finite decimals, which pydantic makes of its JSON.
pub mod Math
pub mod Rates
mod Tests
use package.text.Mathlib.Text.{◌==◌ as str_eq}
use n8n_production_systems.Text.{Text, CharDb, codes, is_empty}
use n8n_production_systems.Validators.Result.{
  RuleResult, Value, str, int, texts, mismatches, Mismatch,
}
use n8n_production_systems.Validators.Dates.{parse_date}
use n8n_production_systems.Validators.Dates.Calendar.{Date, before, isoformat}
use n8n_production_systems.Common.{
  String, ℕ, List, Bool, Option, if◌then◌else◌, map, some, ◌∷◌, false, get_or, suc, ◌||◌, none, not,
  [], ◌++◌, ◌&&◌, true, length,
}

-- What the rules use of `Decimal`: its arithmetic, which rounds to the precision of the context, its
-- comparisons and `str`.
pub record Decimals (D : Type 0) : Type 0 where
  pub zero : D
  pub hundred : D
  pub add : D → D → D
  pub sub : D → D → D
  pub mul : D → D → D
  pub div : D → D → D
  pub abs : D → D
  pub less : D → D → Bool
  pub at_most : D → D → Bool
  pub equal : D → D → Bool
  pub show_decimal : D → Text

pub record VatLine (D : Type 0) : Type 0 where
  pub rate : D
  pub base : D
  pub vat : D

-- config.py: an entry of vat_rates.yaml, and the file
pub record VatRateEntry (D : Type 0) : Type 0 where
  pub rate : D
  pub valid_from : Text
  pub label : Text

pub record VatRatesConfig (D : Type 0) : Type 0 where
  pub rate_unit : String
  pub rates : List (VatRateEntry D)

module _ {D : Type 0} (o : Decimals D) where
  unfoldable pub within : D → D → D → Bool
  within actual expected tolerance = o.at_most (o.abs (o.sub actual expected)) tolerance

  unfoldable pub line_vat : VatLine D → String → D
  line_vat line rate_unit =
      if str_eq rate_unit "fraction"
      then o.mul line.base line.rate
      else o.div (o.mul line.base line.rate) o.hundred

  abbrev math_result : Bool → List (String × Value) → RuleResult
  math_result passed details = record {
    rule = "vat_math";
    field = "gross_total";
    passed = passed;
    details = details;
  }

  abbrev mismatch_of : ℕ → VatLine D → D → Mismatch
  mismatch_of index line expected = record {
    index = index;
    rate = o.show_decimal line.rate;
    base = o.show_decimal line.base;
    vat = o.show_decimal line.vat;
    expected_vat = o.show_decimal expected;
  }

  -- the loop over the lines: the mismatches, and the sum
  unfoldable pub mismatches_from : D → String → ℕ → List (VatLine D) → List Mismatch
  mismatches_from tolerance rate_unit index [] = []
  mismatches_from tolerance rate_unit index (line ∷ lines) =
      let expected = line_vat line rate_unit in
      let rest = mismatches_from tolerance rate_unit (suc index) lines in
      if not (within line.vat expected tolerance)
      then mismatch_of index line expected ∷ rest
      else rest

  unfoldable pub sum_from : D → List (VatLine D) → D
  sum_from total [] = total
  sum_from total (line ∷ lines) = sum_from (o.add total line.vat) lines

  abbrev totals : D → D → D → List (String × Value)
  totals net vat gross =
      ("net", Value.text (o.show_decimal net))
      ∷ ("vat", Value.text (o.show_decimal vat))
      ∷ ("gross", Value.text (o.show_decimal gross))
      ∷ []

  -- behind the check of the totals
  check_lines : D → D → D → List (VatLine D) → D → String → RuleResult
  check_lines net vat gross lines tolerance rate_unit =
      let wrong = mismatches_from tolerance rate_unit 0 lines in
      let vat_sum = sum_from o.zero lines in
      if not (is_empty wrong)
      then math_result false (("reason", str "line_vat") ∷ ("mismatches", mismatches wrong) ∷ [])
      else if not (is_empty lines) && not (within vat_sum vat tolerance)
      then math_result false (
          ("reason", str "vat_sum")
          ∷ ("vat_total", Value.text (o.show_decimal vat))
          ∷ ("sum_of_lines", Value.text (o.show_decimal vat_sum))
          ∷ ("tolerance", Value.text (o.show_decimal tolerance))
          ∷ [])
      else math_result true (totals net vat gross ++ ("lines", int (length lines)) ∷ [])

  check_totals : D → D → D → List (VatLine D) → D → String → RuleResult
  unfolding check_lines
  check_totals net vat gross lines tolerance rate_unit =
      if o.less net o.zero || o.less vat o.zero || o.less gross o.zero
      then math_result false (("reason", str "negative") ∷ totals net vat gross)
      else if not (within gross (o.add net vat) tolerance)
      then math_result false (
          (("reason", str "net_plus_vat") ∷ totals net vat gross)
          ++ ("expected_gross", Value.text (o.show_decimal (o.add net vat)))
            ∷ ("tolerance", Value.text (o.show_decimal tolerance))
            ∷ [])
      else check_lines net vat gross lines tolerance rate_unit

  unfoldable pub vat_math :
      Option D → Option D → Option D → Option (List (VatLine D)) → D → String → RuleResult
  unfolding check_totals
  vat_math (some net) (some vat) (some gross) vat_breakdown tolerance rate_unit =
      check_totals net vat gross (get_or vat_breakdown []) tolerance rate_unit
  vat_math _ _ _ vat_breakdown tolerance rate_unit =
      math_result false (("reason", str "missing_totals") ∷ [])

  abbrev rates_result : Bool → List (String × Value) → RuleResult
  rates_result passed details = record {
    rule = "vat_rates";
    field = "vat_breakdown";
    passed = passed;
    details = details;
  }

  unfoldable pub is_allowed : D → List D → Bool
  is_allowed rate [] = false
  is_allowed rate (r ∷ rs) = o.equal rate r || is_allowed rate rs

  -- the rates that are printed as unknown
  unfoldable pub unknown_rates : List D → List (VatLine D) → List Text
  unknown_rates allowed [] = []
  unknown_rates allowed (line ∷ lines) =
      let rest = unknown_rates allowed lines in
      if not (is_allowed line.rate allowed) then o.show_decimal line.rate ∷ rest else rest

  check_rates : List D → List (VatLine D) → RuleResult
  check_rates allowed lines =
      let unknown = unknown_rates allowed lines in
      if not (is_empty unknown)
      then rates_result false (("reason", str "unknown_rate") ∷ ("rates", texts unknown) ∷ [])
      else if is_empty lines
      then rates_result false (("reason", str "empty_breakdown") ∷ [])
      else rates_result true
          (("accepted", texts (map (λ line. o.show_decimal line.rate) lines)) ∷ [])

  module _ (chars : CharDb) where
    pub started_by : Date → Option Date → Bool
    started_by invoice none = false
    started_by invoice (some started) = not (before invoice started)

    -- the rates that have started by the date
    unfoldable pub rates_in_force : Date → List (VatRateEntry D) → List D
    unfolding started_by
    rates_in_force invoice [] = []
    rates_in_force invoice (entry ∷ entries) =
        let rest = rates_in_force invoice entries in
        if started_by invoice (parse_date chars (some entry.valid_from))
        then entry.rate ∷ rest
        else rest

    -- parse_date(invoice_date) if invoice_date else None
    pub invoice_day : Option Text → Option Date
    invoice_day none = none
    invoice_day (some []) = none
    invoice_day (some (c ∷ s)) = parse_date chars (some (c ∷ s))

    rates_on : Option Date → List (VatLine D) → List (VatRateEntry D) → RuleResult
    unfolding check_rates
    rates_on none lines entries = check_rates (map (λ entry. entry.rate) entries) lines
    rates_on (some day) lines entries =
        let allowed = rates_in_force day entries in
        if is_empty allowed
        then rates_result false
            (("reason", str "no_rate_in_force") ∷ ("invoice_date", Value.text (isoformat day)) ∷ [])
        else check_rates allowed lines

    unfoldable pub vat_rates :
        Option (List (VatLine D)) → VatRatesConfig D → Option Text → RuleResult
    unfolding rates_on invoice_day
    vat_rates vat_breakdown config invoice_date =
        if is_empty config.rates
        then rates_result false (
            ("reason", str "unverified_config")
            ∷ (
              "todo",
              str "TODO(verify): copy official rates from vero.fi into config/vat_rates.yaml",
            )
            ∷ [])
        else rates_on (invoice_day invoice_date) (get_or vat_breakdown []) config.rates
