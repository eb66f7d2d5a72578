-- ===== src/Validators/Dates/Tests.antt =====
-- Dates at which the theorems are applied.
use n8n_production_systems.Validators.Dates.{parse_date}
use n8n_production_systems.Validators.Dates.Calendar.{
  Date, IsDate, isoformat, days_in_month, is_leap,
}
use n8n_production_systems.Validators.Dates.Parse.{IsFinnish, parse_date-isoformat}
use n8n_production_systems.Text.Ascii.{ascii}
use n8n_production_systems.Common.{◌∷◌, some, ◌≡◌, [], arith}

abbrev leap_day : Date
leap_day = record { year = 2024; month = 2; day = 29 }

leap_day-IsDate : IsDate leap_day
unfolding days_in_month is_leap
leap_day-IsDate = record {
  year_range = omega arith;
  month_range = omega arith;
  day_range = omega arith;
}

parse_date-isoformat_example : parse_date ascii (some (isoformat leap_day)) ≡ some leap_day
parse_date-isoformat_example = parse_date-isoformat ascii leap_day leap_day-IsDate

-- 1.2.2024
first_of_february-IsFinnish : IsFinnish (1 ∷ []) (2 ∷ []) (2 ∷ 0 ∷ 2 ∷ 4 ∷ [])
first_of_february-IsFinnish = record {
  day_size = omega arith;
  month_size = omega arith;
  fits = ground arith;
}
