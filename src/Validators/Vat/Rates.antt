-- ===== src/Validators/Vat/Rates.antt =====
-- What the rule `vat_rates` passes.
use mathlib.Core.Path.{refl}
use n8n_production_systems.Validators.Vat.{
  Decimals, VatLine, VatRateEntry, VatRatesConfig, is_allowed, unknown_rates, check_rates,
  rates_in_force, started_by, invoice_day, rates_on, vat_rates,
}
use n8n_production_systems.Validators.Dates.{parse_date}
use n8n_production_systems.Validators.Dates.Calendar.{Date}
use n8n_production_systems.Text.{Text, CharDb, is_empty}
use n8n_production_systems.Common.{
  List, Option, ◌≡◌, All, map, ◌∷◌, [], some, ◌&&◌, false, none, true, ◌⊎◌, Bool-cases, inl, not,
  ◌↔◌, sym, inr, arith, ◌∙◌,
}

module _ {D : Type 0} (o : Decimals D) (chars : CharDb) where
  -- The entry is in force on the day of the invoice, if a day can be read.
  pub InForce : Option Date → VatRateEntry D → Type 0
  InForce none entry = Unit
  InForce (some day) entry =
      started_by o chars day (parse_date chars (some entry.valid_from)) ≡ true

  -- some entry in force has the rate
  pub HasRate : Option Date → D → List (VatRateEntry D) → Type 0
  HasRate day rate [] = ⊥
  HasRate day rate (entry ∷ entries) =
      ((o.equal rate entry.rate ≡ true) × InForce day entry) ⊎ HasRate day rate entries

  allowed_on : Option Date → List (VatRateEntry D) → List D
  allowed_on none entries = map (λ entry. entry.rate) entries
  allowed_on (some day) entries = rates_in_force o chars day entries

  is_allowed-HasRate :
      (day : Option Date) (rate : D) (entries : List (VatRateEntry D))
      → is_allowed o rate (allowed_on day entries) ≡ true
      → HasRate day rate entries
  unfolding is_allowed allowed_on HasRate InForce rates_in_force
  is_allowed-HasRate none rate [] h = cc
  is_allowed-HasRate (some day) rate [] h = cc
  is_allowed-HasRate none rate (e ∷ es) h = elim (Bool-cases (o.equal rate e.rate)) [
    | inl same ↦ inl (same, tt)
    | inr other ↦ inr (is_allowed-HasRate none rate es (ground (arith, h, other)))
  ]
  is_allowed-HasRate (some day) rate (e ∷ es) h =
      elim (Bool-cases (started_by o chars day (parse_date chars (some e.valid_from)))) [
        | inr later ↦ inr (is_allowed-HasRate (some day) rate es (rw later at h))
        | inl started ↦ elim (Bool-cases (o.equal rate e.rate)) [
          | inl same ↦ inl (same, started)
          | inr other ↦ inr (is_allowed-HasRate (some day) rate es (rw (started, other) at h))
        ]
      ]

  HasRate-is_allowed :
      (day : Option Date) (rate : D) (entries : List (VatRateEntry D))
      → HasRate day rate entries
      → is_allowed o rate (allowed_on day entries) ≡ true
  unfolding is_allowed allowed_on HasRate InForce rates_in_force
  HasRate-is_allowed day rate [] h = absurd h
  HasRate-is_allowed none rate (e ∷ es) (inl h) = rw h.0 refl
  HasRate-is_allowed none rate (e ∷ es) (inr h) = ground (arith, HasRate-is_allowed none rate es h)
  HasRate-is_allowed (some day) rate (e ∷ es) (inl h) = rw (h.1, h.0) refl
  HasRate-is_allowed (some day) rate (e ∷ es) (inr h) =
      let rest = HasRate-is_allowed (some day) rate es h in
      elim (Bool-cases (started_by o chars day (parse_date chars (some e.valid_from)))) [
        | inr later ↦ rw later rest
        | inl started ↦ rw (started, rest) (ground arith)
      ]

  All-allowed :
      (day : Option Date) (entries : List (VatRateEntry D)) (lines : List (VatLine D))
      → is_empty (unknown_rates o (allowed_on day entries) lines) ≡ true
      → All (λ l. HasRate day l.rate entries) lines
  unfolding unknown_rates
  All-allowed day entries [] h = tt
  All-allowed day entries (l ∷ ls) h =
      elim (Bool-cases (is_allowed o l.rate (allowed_on day entries))) [
        | inl known ↦ (
          is_allowed-HasRate day l.rate entries known,
          All-allowed day entries ls (rw known at h),
        )
        | inr other ↦ absurd (ground (arith, h, other))
      ]

  none_unknown :
      (day : Option Date) (entries : List (VatRateEntry D)) (lines : List (VatLine D))
      → All (λ l. HasRate day l.rate entries) lines
      → is_empty (unknown_rates o (allowed_on day entries) lines) ≡ true
  unfolding unknown_rates
  none_unknown day entries [] h = refl
  none_unknown day entries (l ∷ ls) h =
      rw (HasRate-is_allowed day l.rate entries h.0) (none_unknown day entries ls h.1)

  check_rates-passed :
      (allowed : List D) (lines : List (VatLine D))
      → (check_rates o allowed lines).passed
        ≡ (is_empty (unknown_rates o allowed lines) && not (is_empty lines))
  unfolding check_rates
  check_rates-passed allowed lines = ground arith

  nothing_allowed :
      (lines : List (VatLine D))
      → (is_empty (unknown_rates o [] lines) && not (is_empty lines)) ≡ false
  unfolding unknown_rates is_allowed
  nothing_allowed [] = refl
  nothing_allowed (l ∷ ls) = refl

  rates_on-passed :
      (day : Option Date) (lines : List (VatLine D)) (entries : List (VatRateEntry D))
      → (rates_on o chars day lines entries).passed
        ≡ (is_empty (unknown_rates o (allowed_on day entries) lines) && not (is_empty lines))
  unfolding rates_on allowed_on
  rates_on-passed none lines entries = check_rates-passed _ lines
  rates_on-passed (some day) lines entries = by_rates (rates_in_force o chars day entries) refl
    where
      by_rates :
          (allowed : List D)
          → rates_in_force o chars day entries ≡ allowed
          → (rates_on o chars (some day) lines entries).passed ≡ (
              is_empty (unknown_rates o (rates_in_force o chars day entries) lines)
              && not (is_empty lines))
      by_rates [] e = rw e (sym (nothing_allowed lines))
      by_rates (r ∷ rs) e = rw e (check_rates-passed (r ∷ rs) lines)

  -- There are rates and lines, and each line has a rate that is in force.
  pub record HasKnownRates (lines : List (VatLine D)) (config : VatRatesConfig D)
      (invoice_date : Option Text) : Type 0 where
    pub configured : is_empty config.rates ≡ false
    pub not_empty : is_empty lines ≡ false
    pub each : All (λ l. HasRate (invoice_day o chars invoice_date) l.rate config.rates) lines

  -- `vat_rates` passes exactly when rates are configured, there are lines, and the rate of each line
  -- is that of an entry in force on the invoice date, or of any entry if no date can be read.
  pub vat_rates-passed_iff :
      (lines : List (VatLine D)) (config : VatRatesConfig D) (invoice_date : Option Text)
      → ((vat_rates o chars (some lines) config invoice_date).passed ≡ true)
        ↔ HasKnownRates lines config invoice_date
  unfolding vat_rates
  vat_rates-passed_iff lines config invoice_date =
      let day = invoice_day o chars invoice_date in
      let tests = rates_on-passed day lines config.rates in
      (
        λ h. record {
          configured = ground (arith, h);
          not_empty = ground (arith, h, tests);
          each = All-allowed day config.rates lines (ground (arith, h, tests));
        },
        λ k.
            rw k.configured
              (tests ∙ rw (none_unknown day config.rates lines k.each, k.not_empty) refl),
      )

pub vat_rates-rule :
    {D : Type 0} (o : Decimals D) (chars : CharDb) (lines : Option (List (VatLine D)))
    (config : VatRatesConfig D) (invoice_date : Option Text)
    → (vat_rates o chars lines config invoice_date).rule ≡ "vat_rates"
unfolding vat_rates rates_on check_rates
vat_rates-rule o chars lines config invoice_date = ground arith
