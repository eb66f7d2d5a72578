-- ===== src/Text/Show.antt =====
-- `str` of an integer that is not negative: its decimal digits.
use n8n_production_systems.Common.{
  ℕ, zero, suc, ◌/◌, ◌%◌, ◌<◌, ◌≡◌, refl, [], ◌∷◌, List, map, arith, ◌==◌, if◌then◌else◌, ap, ◌∙◌,
  Bool-cases, inl, inr, ◌≤◌,
}
use n8n_production_systems.Text.{Text, codes}
use n8n_production_systems.Text.Shape.{digit_char, value_from, value, AreDigits}

-- The digits of `n` before those in `out`. A number below the fuel has fewer digits than the fuel.
digits_before : ℕ → ℕ → List ℕ → List ℕ
digits_before zero n out = out
digits_before (suc fuel) n out =
    let more = digits_before fuel (n / 10) (n % 10 ∷ out) in if n / 10 == 0 then n ∷ out else more

unfoldable pub digits_of : ℕ → List ℕ
unfolding digits_before
digits_of n = digits_before (suc n) n []

unfoldable pub show : ℕ → Text
unfolding digits_of
show n = map digit_char (digits_of n)

value_from-digits_before :
    (fuel n : ℕ) (out : List ℕ)
    → n < fuel
    → value_from 0 (digits_before fuel n out) ≡ value_from n out
unfolding digits_before
value_from-digits_before zero n out h = absurd (omega arith)
value_from-digits_before (suc fuel) n out h = elim (Bool-cases (n / 10 == 0)) [
  | inl done ↦ rw done (ap (λ m. value_from m out) (omega arith))
  | inr more ↦ rw more (
      value_from-digits_before fuel (n / 10) (n % 10 ∷ out) (ground arith)
      ∙ ap (λ m. value_from m out) (omega arith))
]

-- The fuel is enough: the digits of a number spell it.
pub value-digits_of : (n : ℕ) → value (digits_of n) ≡ n
unfolding digits_of
value-digits_of n = value_from-digits_before (suc n) n [] (omega arith)

show_105 : show 105 ≡ codes "105"
unfolding show
show_105 = refl

digits_before-AreDigits :
    (fuel n : ℕ) (out : List ℕ) → n < fuel → AreDigits out → AreDigits (digits_before fuel n out)
unfolding digits_before
digits_before-AreDigits zero n out h a = absurd (omega arith)
digits_before-AreDigits (suc fuel) n out h a =
    ground (arith, digits_before-AreDigits fuel (n / 10) (n % 10 ∷ out))

pub digits_of-AreDigits : (n : ℕ) → AreDigits (digits_of n)
unfolding digits_of
digits_of-AreDigits n = digits_before-AreDigits (suc n) n [] (omega arith) tt

pub digits_of_two : (n : ℕ) → 10 ≤ n → n < 100 → digits_of n ≡ n / 10 ∷ n % 10 ∷ []
unfolding digits_of
digits_of_two zero h k = absurd (omega arith)
digits_of_two (suc m) h k = ground arith
