-- ===== src/Validators/Dates.antt =====
-- validators/dates.py, with what it uses of Python's `datetime.date`. `today` is an argument, as it
-- is of `dates`; the clock (`today_helsinki`) is not modelled.
pub mod Calendar
pub mod Parse
pub mod Rule
mod Tests
use n8n_production_systems.Common.{
  ℕ, String, Bool, true, false, Option, none, some, List, [], ◌∷◌, ◌==◌, if◌then◌else◌,
}
use n8n_production_systems.Text.{Text, CharDb, or_empty, is_empty}
use n8n_production_systems.Text.Strip.{strip}
use n8n_production_systems.Text.Shape.{Piece, lit, digits, full_match, value}
use n8n_production_systems.Validators.Result.{RuleResult, Value, str, text}
use Calendar.{Date, date_of, before, isoformat, iso_pattern}

-- ^(\d{1,2})\.(\d{1,2})\.(\d{4})$ with the numbers of digits of its first two groups
abbrev pub finnish_pattern : ℕ → ℕ → List Piece
finnish_pattern n m = digits n ∷ lit b'.' ∷ digits m ∷ lit b'.' ∷ digits 4 ∷ []

abbrev or_else {ℓ} : {A : Type ℓ} → Option A → Option A → Option A
or_else none b = b
or_else (some a) b = some a

-- `date(year, month, day)` of the groups, with a `ValueError` for `None`
of_finnish : List (List ℕ) → Option Date
of_finnish (day ∷ month ∷ year ∷ []) = date_of (value year) (value month) (value day)
of_finnish _ = none

of_iso : List (List ℕ) → Option Date
of_iso (year ∷ month ∷ day ∷ []) = date_of (value year) (value month) (value day)
of_iso _ = none

-- the match that `parse_date` finds first
pick : Option (List (List ℕ)) → Option (List (List ℕ)) → Option Date
unfolding of_finnish of_iso
pick (some groups) iso = of_finnish groups
pick none (some groups) = of_iso groups
pick none none = none

abbrev result : Bool → List (String × Value) → RuleResult
result passed details = record {
  rule = "dates";
  field = "invoice_date";
  passed = passed;
  details = details;
}

abbrev given_text : Option Text → Value
given_text none = str "None"
given_text (some s) = text s

module _ (db : CharDb) where
  -- The regular expression takes two digits before it takes one.
  unfoldable pub match_finnish : Text → Option (List (List ℕ))
  match_finnish raw = or_else (full_match db (finnish_pattern 2 2) raw) (
      or_else (full_match db (finnish_pattern 2 1) raw) (
        or_else (full_match db (finnish_pattern 1 2) raw)
          (full_match db (finnish_pattern 1 1) raw)))

  pub parse_date : Option Text → Option Date
  unfolding pick
  parse_date given =
      let raw = strip db (or_empty given) in
      if is_empty raw then none else pick (match_finnish raw) (full_match db iso_pattern raw)

-- the end of `dates`: what was parsed of the due date
compare_due : Date → Date → Option Text → Option Date → RuleResult
compare_due today invoice due_date none =
    result false (("reason", str "unparsed_due_date") ∷ ("value", given_text due_date) ∷ [])
compare_due today invoice due_date (some due) =
    if before due invoice
    then result false (
        ("reason", str "due_before_invoice")
        ∷ ("invoice_date", text (isoformat invoice))
        ∷ ("due_date", text (isoformat due))
        ∷ [])
    else result true (
        ("invoice_date", text (isoformat invoice))
        ∷ ("due_date", text (isoformat due))
        ∷ ("today", text (isoformat today))
        ∷ [])

module _ (db : CharDb) where
  -- the part of `dates` behind the parse of the invoice date
  check_invoice : Date → Option Text → Option Text → Option Date → RuleResult
  unfolding compare_due
  check_invoice today invoice_date due_date none =
      result false
        (("reason", str "unparsed_invoice_date") ∷ ("value", given_text invoice_date) ∷ [])
  check_invoice today invoice_date due_date (some invoice) =
      if before today invoice
      then result false (
          ("reason", str "invoice_in_future")
          ∷ ("invoice_date", text (isoformat invoice))
          ∷ ("today", text (isoformat today))
          ∷ [])
      else if is_empty (strip db (or_empty due_date))
      then result false
          (("reason", str "missing_due_date") ∷ ("invoice_date", text (isoformat invoice)) ∷ [])
      else compare_due today invoice due_date (parse_date db due_date)

  unfoldable pub dates : Option Text → Option Text → Date → RuleResult
  unfolding check_invoice
  dates invoice_date due_date today =
      if is_empty (strip db (or_empty invoice_date))
      then result false (("reason", str "missing_invoice_date") ∷ [])
      else check_invoice today invoice_date due_date (parse_date db invoice_date)
