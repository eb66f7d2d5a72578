-- ===== src/Validators/Dates/Calendar.antt =====
-- `datetime.date`: construction, order and ISO form.
use n8n_production_systems.Text.Shape.{Piece, lit, digits, print, value, Fits}
use n8n_production_systems.Common.{
  ◌≤◌, Bool, ℕ, ◌∷◌, List, ◌≡◌, ◌%◌, ◌<◌, ◌*◌, ◌/◌, [], Option, arith, some, true, if◌then◌else◌,
  ltb, leb, ◌+◌, ◌↔◌, ◌==◌, ◌||◌, ◌&&◌, not, none,
}
use n8n_production_systems.Text.{Text}

pub record Date : Type 0 where
  pub year : ℕ
  pub month : ℕ
  pub day : ℕ

unfoldable pub is_leap : ℕ → Bool
is_leap y = y % 4 == 0 && (not (y % 100 == 0) || y % 400 == 0)

unfoldable pub days_in_month : ℕ → ℕ → ℕ
unfolding is_leap
days_in_month y m =
    if m == 2
    then (if is_leap y then 29 else 28)
    else if m == 4 || m == 6 || m == 9 || m == 11
    then 30
    else 31

-- A date of the calendar that `datetime` has.
pub record IsDate (d : Date) : Type 0 where
  pub year_range : (1 ≤ d.year) × (d.year ≤ 9999)
  pub month_range : (1 ≤ d.month) × (d.month ≤ 12)
  pub day_range : (1 ≤ d.day) × (d.day ≤ days_in_month d.year d.month)

-- `date(year, month, day)`; `none` is its `ValueError`
pub date_of : ℕ → ℕ → ℕ → Option Date
date_of y m d =
    if leb 1 y && leb y 9999 && leb 1 m && leb m 12 && leb 1 d && leb d (days_in_month y m)
    then some (record { year = y; month = m; day = d })
    else none

-- a < b
unfoldable pub before : Date → Date → Bool
before a b =
    ltb a.year b.year
    || (a.year == b.year && (ltb a.month b.month || (a.month == b.month && ltb a.day b.day)))

-- (\d{4})-(\d{2})-(\d{2})
abbrev pub iso_pattern : List Piece
iso_pattern = digits 4 ∷ lit b'-' ∷ digits 2 ∷ lit b'-' ∷ digits 2 ∷ []

abbrev pub two_digits : ℕ → List ℕ
two_digits n = n / 10 ∷ n % 10 ∷ []

abbrev pub four_digits : ℕ → List ℕ
four_digits n = n / 1000 ∷ n / 100 % 10 ∷ n / 10 % 10 ∷ n % 10 ∷ []

unfoldable pub isoformat : Date → Text
isoformat d = print iso_pattern (four_digits d.year ∷ two_digits d.month ∷ two_digits d.day ∷ [])

pub date_of-IsDate : (y m d : ℕ) (t : Date) → date_of y m d ≡ some t → IsDate t
unfolding date_of
date_of-IsDate y m d t h = ground arith

pub date_of_lem : (t : Date) → IsDate t → date_of t.year t.month t.day ≡ some t
unfolding date_of
date_of_lem t h = ground arith

pub days_in_month_range : (y m : ℕ) → (28 ≤ days_in_month y m) × (days_in_month y m ≤ 31)
unfolding days_in_month
days_in_month_range y m = ground arith

-- The position of a date in an order of all dates.
abbrev pub key : Date → ℕ
key d = (d.year * 13 + d.month) * 32 + d.day

-- On dates of the calendar `<` is the order of their positions.
pub before_iff : (a b : Date) → IsDate a → IsDate b → (before a b ≡ true) ↔ (key a < key b)
unfolding before
before_iff a b ha hb =
    ground (arith, days_in_month_range a.year a.month, days_in_month_range b.year b.month)

pub value-two_digits : (n : ℕ) → n < 100 → value (two_digits n) ≡ n
value-two_digits n h = omega arith

pub value-four_digits : (n : ℕ) → n < 10000 → value (four_digits n) ≡ n
value-four_digits n h = omega arith

pub iso_Fits :
    (t : Date)
    → IsDate t
    → Fits iso_pattern (four_digits t.year ∷ two_digits t.month ∷ two_digits t.day ∷ [])
iso_Fits t h = ground (arith, days_in_month_range t.year t.month)
