-- ===== src/Validators/Dates/Parse.antt =====
-- `parse_date` against the two written forms.
use n8n_production_systems.Validators.Dates.{
  finnish_pattern, match_finnish, of_finnish, of_iso, parse_date,
}
use n8n_production_systems.Common.{[], false, refl, length, ◌≤◌}
use n8n_production_systems.Validators.Dates.Calendar.{
  Date, IsDate, date_of, date_of-IsDate, date_of_lem, iso_pattern, isoformat, iso_Fits, two_digits,
  four_digits, value-two_digits, value-four_digits, days_in_month_range,
}
use n8n_production_systems.Text.{CharDb, Text, or_empty, is_empty}
use n8n_production_systems.Common.{
  List, Option, some, ℕ, ◌≡◌, none, ◌<◌, arith, Option-cases, ◌∷◌, inr, inl,
}
use n8n_production_systems.Text.Strip.{strip, strip-Solid}
use n8n_production_systems.Text.Shape.{
  full_match, digit_char, decimal-digit_char, value, print-Solid, full_match-print, Fits, print,
}

-- `day.month.year` in digits
abbrev pub finnish_text : List ℕ → List ℕ → List ℕ → Text
finnish_text day month year =
    print (finnish_pattern (length day) (length month)) (day ∷ month ∷ year ∷ [])

pub record IsFinnish (day month year : List ℕ) : Type 0 where
  pub day_size : (1 ≤ length day) × (length day ≤ 2)
  pub month_size : (1 ≤ length month) × (length month ≤ 2)
  pub fits : Fits (finnish_pattern (length day) (length month)) (day ∷ month ∷ year ∷ [])

of_finnish-IsDate : (gs : List (List ℕ)) (t : Date) → of_finnish gs ≡ some t → IsDate t
unfolding of_finnish
of_finnish-IsDate (d ∷ m ∷ y ∷ []) t h = date_of-IsDate (value y) (value m) (value d) t h
of_finnish-IsDate _ t h = cc

of_iso-IsDate : (gs : List (List ℕ)) (t : Date) → of_iso gs ≡ some t → IsDate t
unfolding of_iso
of_iso-IsDate (y ∷ m ∷ d ∷ []) t h = date_of-IsDate (value y) (value m) (value d) t h
of_iso-IsDate _ t h = cc

print_not_empty : (t : Date) → is_empty (isoformat t) ≡ false
unfolding isoformat
print_not_empty t = refl

module _ (db : CharDb) where
  -- Whatever the text, a date that `parse_date` returns is a date of the calendar.
  pub parse_date-IsDate : (given : Option Text) (t : Date) → parse_date db given ≡ some t → IsDate t
  unfolding parse_date
  parse_date-IsDate given t h = elim (Option-cases (match_finnish db (strip db (or_empty given)))) [
    | inr (gs, e) ↦ of_finnish-IsDate gs t (ground arith)
    | inl e ↦ elim (Option-cases (full_match db iso_pattern (strip db (or_empty given)))) [
      | inr (gs, f) ↦ of_iso-IsDate gs t (ground arith)
      | inl f ↦ absurd (ground arith)
    ]
  ]

  dash-decimal : db.decimal b'-' ≡ none
  dash-decimal = ground (arith, db.decimal_ascii b'-')

  dot-decimal : db.decimal b'.' ≡ none
  dot-decimal = ground (arith, db.decimal_ascii b'.')

  -- a text with three digits at its front is in none of the Finnish forms
  not_finnish :
      (a b c : ℕ) (s : Text)
      → a < 10
      → b < 10
      → c < 10
      → match_finnish db (digit_char a ∷ digit_char b ∷ digit_char c ∷ s) ≡ none
  unfolding match_finnish full_match
  not_finnish a b c s ha hb hc =
      ground (arith, decimal-digit_char db a ha, decimal-digit_char db b hb)

  -- Every date of the calendar is read back from its ISO form.
  pub parse_date-isoformat : (t : Date) → IsDate t → parse_date db (some (isoformat t)) ≡ some t
  unfolding parse_date of_iso
  parse_date-isoformat t h =
      let gs = four_digits t.year ∷ two_digits t.month ∷ two_digits t.day ∷ [] in
      let solid : strip db (isoformat t) ≡ isoformat t =
        strip-Solid db (isoformat t)
          (unfold isoformat in print-Solid db iso_pattern gs (omega arith) (iso_Fits t h)) in
      let other : match_finnish db (isoformat t) ≡ none =
        unfold isoformat in
        not_finnish _ _ _ _ (omega (arith, h.year_range)) (omega arith) (omega arith) in
      let reads : full_match db iso_pattern (isoformat t) ≡ some gs =
        unfold isoformat in full_match-print db iso_pattern gs (iso_Fits t h) in
      rw (solid, other, reads)
        (ground (
          arith,
          date_of_lem t h,
          value-four_digits t.year,
          value-two_digits t.month,
          value-two_digits t.day,
          days_in_month_range t.year t.month,
          print_not_empty t,
        ))

  -- two digits are wanted where one stands before a point
  short_day :
      (m d : ℕ) (s : Text)
      → d < 10
      → full_match db (finnish_pattern 2 m) (digit_char d ∷ b'.' ∷ s) ≡ none
  unfolding full_match
  short_day m d s h = ground (arith, decimal-digit_char db d h, dot-decimal)

  short_month :
      (d m : ℕ) (s : Text)
      → d < 10
      → m < 10
      → full_match db (finnish_pattern 1 2) (digit_char d ∷ b'.' ∷ digit_char m ∷ b'.' ∷ s) ≡ none
  unfolding full_match
  short_month d m s hd hm =
      ground (arith, decimal-digit_char db d hd, decimal-digit_char db m hm, dot-decimal)

  short_month_two :
      (d e m : ℕ) (s : Text)
      → d < 10
      → e < 10
      → m < 10
      → full_match db
          (finnish_pattern 2 2)
          (digit_char d ∷ digit_char e ∷ b'.' ∷ digit_char m ∷ b'.' ∷ s)
        ≡ none
  unfolding full_match
  short_month_two d e m s hd he hm = ground (
    arith,
    decimal-digit_char db d hd,
    decimal-digit_char db e he,
    decimal-digit_char db m hm,
    dot-decimal,
  )

  finnish-reads :
      (day month year : List ℕ)
      → IsFinnish day month year
      → match_finnish db (finnish_text day month year) ≡ some (day ∷ month ∷ year ∷ [])
  unfolding match_finnish
  finnish-reads (d ∷ e ∷ []) (m ∷ n ∷ []) year h =
      rw (full_match-print db (finnish_pattern 2 2) _ h.fits)
  finnish-reads (d ∷ e ∷ []) (m ∷ []) year h = rw (
    short_month_two d e m _ h.fits.0.0 h.fits.0.1.0 h.fits.2.0.0,
    full_match-print db (finnish_pattern 2 1) _ h.fits,
  )
  finnish-reads (d ∷ []) (m ∷ n ∷ []) year h = rw (
    short_day 2 d _ h.fits.0.0,
    short_day 1 d _ h.fits.0.0,
    full_match-print db (finnish_pattern 1 2) _ h.fits,
  )
  finnish-reads (d ∷ []) (m ∷ []) year h = rw (
    short_day 2 d _ h.fits.0.0,
    short_day 1 d _ h.fits.0.0,
    short_month d m _ h.fits.0.0 h.fits.2.0.0,
    full_match-print db (finnish_pattern 1 1) _ h.fits,
  )
  finnish-reads [] month year h = absurd (omega (arith, h.day_size))
  finnish-reads (d ∷ e ∷ f ∷ s) month year h = absurd (omega (arith, h.day_size))
  finnish-reads (d ∷ []) [] year h = absurd (omega (arith, h.month_size))
  finnish-reads (d ∷ []) (m ∷ n ∷ o ∷ s) year h = absurd (omega (arith, h.month_size))
  finnish-reads (d ∷ e ∷ []) [] year h = absurd (omega (arith, h.month_size))
  finnish-reads (d ∷ e ∷ []) (m ∷ n ∷ o ∷ s) year h = absurd (omega (arith, h.month_size))

  finnish_not_empty :
      (day month year : List ℕ)
      → IsFinnish day month year
      → is_empty (finnish_text day month year) ≡ false
  finnish_not_empty [] month year h = absurd (omega (arith, h.day_size))
  finnish_not_empty (d ∷ ds) month year h = refl

  -- A text of a day, a month (one or two digits each) and a year of four digits, with points
  -- between them, is read as the date with those numbers, and as no date if there is none.
  pub parse_date-finnish :
      (day month year : List ℕ)
      → IsFinnish day month year
      → parse_date db (some (finnish_text day month year))
        ≡ date_of (value year) (value month) (value day)
  unfolding parse_date of_finnish
  parse_date-finnish day month year h =
      let s = finnish_text day month year in
      let p = finnish_pattern (length day) (length month) in
      let solid : strip db s ≡ s =
        strip-Solid db s (print-Solid db p (day ∷ month ∷ year ∷ []) (omega arith) h.fits) in
      rw (solid, finnish_not_empty day month year h, finnish-reads day month year h)
