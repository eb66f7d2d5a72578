-- ===== src/Validators/Reference/Rule.antt =====
-- Every result of `reference_number` names its rule.
use mathlib.Core.Path.{refl}
use n8n_production_systems.Validators.Reference.{
  compare_check, conclude_rf, but_last, last_char, compact, finnish_check_digit, finnish_reference,
  rf_reference, reference_number,
}
use n8n_production_systems.Validators.Iban.{mod97}
use n8n_production_systems.Validators.Result.{RuleResult}
use n8n_production_systems.Text.{Text, CharDb, or_empty}
use n8n_production_systems.Text.Strip.{strip}
use n8n_production_systems.Text.Shape.{int_of}
use n8n_production_systems.Common.{
  ◌>>=◌, Outcome, Option, ℕ, ◌≡◌, ok, some, arith, ◌∷◌, raises, none, [],
}

compare_check-rule : (a b : ℕ) → (compare_check a b).rule ≡ "reference_number"
unfolding compare_check
compare_check-rule a b = ground arith

conclude_rf-rule : (s : Text) (o : Option ℕ) → (conclude_rf s o).rule ≡ "reference_number"
unfolding conclude_rf
conclude_rf-rule s none = refl
conclude_rf-rule s (some n) = ground arith

compare-rule :
    (m e : Outcome ℕ) (r : RuleResult)
    → (m >>= λ a. e >>= λ b. ok (compare_check a b)) ≡ ok r
    → r.rule ≡ "reference_number"
compare-rule (raises x) e r h = cc
compare-rule (ok a) (raises x) r h = cc
compare-rule (ok a) (ok b) r h =
    let is : compare_check a b ≡ r = ground (arith, h) in rw (← is) (compare_check-rule a b)

last-rule :
    (l : Outcome ℕ) (m : ℕ → Outcome ℕ) (e : Outcome ℕ) (r : RuleResult)
    → (l >>= λ c. m c >>= λ a. e >>= λ b. ok (compare_check a b)) ≡ ok r
    → r.rule ≡ "reference_number"
last-rule (raises x) m e r h = cc
last-rule (ok c) m e r h = compare-rule (m c) e r h

conclude-rule :
    (s : Text) (m : Outcome (Option ℕ)) (r : RuleResult)
    → (m >>= λ n. ok (conclude_rf s n)) ≡ ok r
    → r.rule ≡ "reference_number"
conclude-rule s (raises x) r h = cc
conclude-rule s (ok n) r h =
    let is : conclude_rf s n ≡ r = ground (arith, h) in rw (← is) (conclude_rf-rule s n)

module _ (db : CharDb) where
  finnish_reference-rule :
      (s : Text) (r : RuleResult) → finnish_reference db s ≡ ok r → r.rule ≡ "reference_number"
  unfolding finnish_reference
  finnish_reference-rule s r h = ground (
    arith,
    h,
    last-rule (last_char s) (λ c. int_of db (c ∷ [])) (finnish_check_digit db (but_last s)) r,
  )

  rf_reference-rule :
      (s : Text) (r : RuleResult) → rf_reference db s ≡ ok r → r.rule ≡ "reference_number"
  unfolding rf_reference
  rf_reference-rule s r h = ground (arith, h, conclude-rule s (mod97 db s) r)

  pub reference_number-rule :
      (given : Option Text) (r : RuleResult)
      → reference_number db given ≡ ok r
      → r.rule ≡ "reference_number"
  unfolding reference_number
  reference_number-rule given r h =
      let s = compact db (strip db (or_empty given)) in
      ground (arith, h, finnish_reference-rule s r, rf_reference-rule s r)
