-- ===== src/Validators/Vat/Math.antt =====
-- What the rule `vat_math` passes.
use mathlib.Core.Path.{refl}
use n8n_production_systems.Validators.Vat.{
  Decimals, VatLine, within, line_vat, mismatches_from, sum_from, check_lines, check_totals,
  vat_math,
}
use n8n_production_systems.Text.{is_empty}
use n8n_production_systems.Common.{
  List, String, ◌≡◌, Bool, ℕ, some, true, [], false, All, not, ◌∷◌, ◌||◌, ◌↔◌, ◌⊎◌, ◌&&◌, arith,
  Bool-cases, inl, suc, inr, ◌∙◌, Option,
}

module _ {D : Type 0} (o : Decimals D) where
  -- The totals are not negative and add up, each line's VAT is its rate of its base, and the lines
  -- add up to the VAT, if there are lines: all within the tolerance.
  pub record IsConsistent (net vat gross : D) (lines : List (VatLine D)) (tolerance : D)
      (unit : String) : Type 0 where
    pub net_sign : o.less net o.zero ≡ false
    pub vat_sign : o.less vat o.zero ≡ false
    pub gross_sign : o.less gross o.zero ≡ false
    pub adds_up : within o gross (o.add net vat) tolerance ≡ true
    pub each : All (λ l. within o l.vat (line_vat o l unit) tolerance ≡ true) lines
    pub lines_add_up : (lines ≡ []) ⊎ (within o (sum_from o o.zero lines) vat tolerance ≡ true)

  All-within :
      (tolerance : D) (unit : String) (k : ℕ) (lines : List (VatLine D))
      → is_empty (mismatches_from o tolerance unit k lines) ≡ true
      → All (λ l. within o l.vat (line_vat o l unit) tolerance ≡ true) lines
  unfolding mismatches_from
  All-within tolerance unit k [] h = tt
  All-within tolerance unit k (l ∷ ls) h =
      elim (Bool-cases (within o l.vat (line_vat o l unit) tolerance)) [
        | inl close ↦ (close, All-within tolerance unit (suc k) ls (ground (arith, h, close)))
        | inr far ↦ absurd (ground (arith, h, far))
      ]

  none_wrong :
      (tolerance : D) (unit : String) (k : ℕ) (lines : List (VatLine D))
      → All (λ l. within o l.vat (line_vat o l unit) tolerance ≡ true) lines
      → is_empty (mismatches_from o tolerance unit k lines) ≡ true
  unfolding mismatches_from
  none_wrong tolerance unit k [] h = refl
  none_wrong tolerance unit k (l ∷ ls) h = rw h.0 (none_wrong tolerance unit (suc k) ls h.1)

  nil_or_close :
      (lines : List (VatLine D)) (close : Bool)
      → (not (is_empty lines) && not close) ≡ false
      → (lines ≡ []) ⊎ (close ≡ true)
  nil_or_close [] close h = inl refl
  nil_or_close (l ∷ ls) true h = inr refl
  nil_or_close (l ∷ ls) false h = cc

  close_lines :
      (lines : List (VatLine D)) (close : Bool)
      → (lines ≡ []) ⊎ (close ≡ true)
      → (not (is_empty lines) && not close) ≡ false
  close_lines lines close (inl e) = rw e refl
  close_lines [] close (inr e) = refl
  close_lines (l ∷ ls) close (inr e) = rw e refl

  passed_tests :
      (net vat gross : D) (lines : List (VatLine D)) (tolerance : D) (unit : String)
      → (vat_math o (some net) (some vat) (some gross) (some lines) tolerance unit).passed ≡ (
          not (o.less net o.zero || o.less vat o.zero || o.less gross o.zero)
          && (within o gross (o.add net vat) tolerance
              && (is_empty (mismatches_from o tolerance unit 0 lines)
                  && not (
                      not (is_empty lines)
                      && not (within o (sum_from o o.zero lines) vat tolerance)))))
  unfolding vat_math check_totals check_lines
  passed_tests net vat gross lines tolerance unit = ground arith

  -- `vat_math` passes three totals and their lines exactly when the totals are not negative and add
  -- up, each line's VAT is its rate of its base, and the lines, if any, add up to the VAT total, all
  -- within the tolerance.
  pub vat_math-passed_iff :
      (net vat gross : D) (lines : List (VatLine D)) (tolerance : D) (unit : String)
      → ((vat_math o (some net) (some vat) (some gross) (some lines) tolerance unit).passed ≡ true)
        ↔ IsConsistent net vat gross lines tolerance unit
  vat_math-passed_iff net vat gross lines tolerance unit =
      let tests = passed_tests net vat gross lines tolerance unit in
      (
        λ h. record {
          net_sign = ground (arith, tests, h);
          vat_sign = ground (arith, tests, h);
          gross_sign = ground (arith, tests, h);
          adds_up = ground (arith, tests, h);
          each = All-within tolerance unit 0 lines (ground (arith, tests, h));
          lines_add_up = nil_or_close lines _ (ground (arith, tests, h));
        },
        λ c.
            tests
            ∙ rw
                (
                  c.net_sign,
                  c.vat_sign,
                  c.gross_sign,
                  c.adds_up,
                  none_wrong tolerance unit 0 lines c.each,
                  close_lines lines _ c.lines_add_up,
                )
                refl,
      )

pub vat_math-rule :
    {D : Type 0} (o : Decimals D) (net vat gross : Option D) (lines : Option (List (VatLine D)))
    (tolerance : D) (unit : String)
    → (vat_math o net vat gross lines tolerance unit).rule ≡ "vat_math"
unfolding vat_math check_totals check_lines
vat_math-rule o net vat gross lines tolerance unit = ground arith
