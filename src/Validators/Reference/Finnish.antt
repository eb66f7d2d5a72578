-- ===== src/Validators/Reference/Finnish.antt =====
-- The 7-3-1 check digit of a Finnish reference number.
use native.Mathlib.Nat.{add_comm}
use n8n_production_systems.Common.{
  map-append, All-append, All, suc, ◌≢◌, ◌↔◌, false_of_ne_true, All-middle,
}
use mathlib.Core.List.{reverse, reverse-cons}
use n8n_production_systems.Validators.Reference.{
  fi_weight, but_last, last_char, compact, compare_check, sum_weighted, finnish_check_digit,
  finnish_reference, reference_number,
}
use n8n_production_systems.Text.{CharDb, Text, starts_with, codes, is_empty}
use n8n_production_systems.Common.{
  List, ℕ, ◌∷◌, ◌≤◌, ◌*◌, map, ◌≡◌, length, some, ok, ◌++◌, ◌+◌, [], arith, ◌∙◌, Outcome-cases,
  length-append, inl, refl, inr, length-map, ap, ◌<◌, ◌-◌, true, false, ◌%◌,
}
use n8n_production_systems.Text.Shape.{int_of, AreDigits, digit_char, decimal-digit_char, str_all}
use n8n_production_systems.Validators.Codes.{IsCode, map-IsCode, normal_codes, strip_codes}
use n8n_production_systems.Validators.Result.{is_pass}

-- The weighted sum of digits, the weight of each given by the number of digits to its right.
unfoldable pub weighted : List ℕ → ℕ
weighted [] = 0
weighted (d ∷ ds) = d * fi_weight (length ds) + weighted ds

-- The body of a reference number: 3 to 19 digits before the check digit.
abbrev pub IsBody : List ℕ → Type 0
IsBody ds = AreDigits ds × (3 ≤ length ds) × (length ds ≤ 19)

abbrev pub reference_text : List ℕ → ℕ → Text
reference_text ds check = map digit_char ds ++ digit_char check ∷ []

length-reverse : (s : Text) → length (reverse s) ≡ length s
length-reverse [] = refl
length-reverse (c ∷ s) =
    rw reverse-cons (omega (arith, length-append (reverse s) (c ∷ []), length-reverse s))

shift : (i n : ℕ) → i + 1 + n ≡ i + suc n
shift i n = omega arith

module _ (db : CharDb) where
  int_of_char : (c d : ℕ) → db.decimal c ≡ some d → int_of db (c ∷ []) ≡ ok d
  unfolding int_of
  int_of_char c d e = ground arith

  sum_weighted-append :
      (index total : ℕ) (s : Text) (c d t : ℕ)
      → db.decimal c ≡ some d
      → sum_weighted db index total s ≡ ok t
      → sum_weighted db index total (s ++ c ∷ []) ≡ ok (t + d * fi_weight (index + length s))
  unfolding sum_weighted
  sum_weighted-append index total [] c d t e h = ground (arith, int_of_char c d)
  sum_weighted-append index total (x ∷ s) c d t e h = elim (Outcome-cases (int_of db (x ∷ []))) [
    | inl (_, bad) ↦ absurd (ground arith)
    | inr (v, good) ↦
        rw (good, sum_weighted)
          (sum_weighted-append (index + 1) (total + v * fi_weight index) s c d t e (ground arith)
            ∙ ap (λ n. ok (t + d * fi_weight n)) (shift index (length s)))
  ]

  sum_weighted-reverse :
      (ds : List ℕ)
      → AreDigits ds
      → sum_weighted db 0 0 (reverse (map digit_char ds)) ≡ ok (weighted ds)
  unfolding sum_weighted weighted
  sum_weighted-reverse [] h = refl
  sum_weighted-reverse (d ∷ ds) h = rw reverse-cons (
      sum_weighted-append 0 0 (reverse (map digit_char ds)) (digit_char d) d (weighted ds)
        (decimal-digit_char db d h.0) (sum_weighted-reverse ds h.1)
      ∙ rw same_length (ap ok (add_comm (weighted ds) (d * fi_weight (length ds)))))
    where
      same_length : 0 + length (reverse (map digit_char ds)) ≡ length ds
      same_length = omega (arith, length-reverse (map digit_char ds), length-map ds digit_char)

but_last-snoc : (s : Text) (c : ℕ) → but_last (s ++ c ∷ []) ≡ s
unfolding but_last
but_last-snoc [] c = refl
but_last-snoc (x ∷ []) c = refl
but_last-snoc (x ∷ y ∷ s) c = ap (λ t. x ∷ t) (but_last-snoc (y ∷ s) c)

last_char-snoc : (s : Text) (c : ℕ) → last_char (s ++ c ∷ []) ≡ ok c
unfolding last_char
last_char-snoc [] c = refl
last_char-snoc (x ∷ []) c = refl
last_char-snoc (x ∷ y ∷ s) c = last_char-snoc (y ∷ s) c

not_empty : (s : Text) → 0 < length s → is_empty s ≡ false
not_empty [] h = absurd (omega arith)
not_empty (c ∷ s) h = refl

compact_lem : (db : CharDb) (s : Text) → All IsCode s → compact db s ≡ s
unfolding compact
compact_lem db s h = normal_codes db s h

module _ (db : CharDb) where
  all_digits :
      (ds : List ℕ) → AreDigits ds → 0 < length ds → str_all db.is_digit (map digit_char ds) ≡ true
  unfolding str_all
  all_digits [] h n = absurd (omega arith)
  all_digits (d ∷ []) h n = ground (arith, db.digit_ascii (48 + d))
  all_digits (d ∷ e ∷ ds) h n = ground (arith, db.digit_ascii (48 + d), all_digits (e ∷ ds) h.1)

  not_rf : (ds : List ℕ) → AreDigits ds → starts_with (codes "RF") (map digit_char ds) ≡ false
  unfolding starts_with
  not_rf [] h = refl
  not_rf (d ∷ ds) h = ground arith

  -- What `reference_number` makes of digits alone.
  digits_reference :
      (ds : List ℕ) (check : ℕ)
      → IsBody ds
      → check < 10
      → reference_number db (some (reference_text ds check))
        ≡ ok (compare_check check ((10 - weighted ds % 10) % 10))
  unfolding reference_number finnish_reference finnish_check_digit
  digits_reference ds check (range, low, high) h =
      let all = ds ++ check ∷ [] in
      let s = reference_text ds check in
      let split : map digit_char all ≡ s = map-append digit_char ds (check ∷ []) in
      let all_range : AreDigits all = All-append _ ds (check ∷ []) range (h, tt) in
      let size : length s ≡ length ds + 1 = omega (
        arith,
        length-append (map digit_char ds) (digit_char check ∷ []),
        length-map ds digit_char,
      ) in
      let all_size : 0 < length all = omega (arith, length-append ds (check ∷ [])) in
      let code : All IsCode s = rw split at (map-IsCode all all_range) in
      let tested : str_all db.is_digit s ≡ true = rw split at (all_digits all all_range all_size) in
      let finnish : starts_with (codes "RF") s ≡ false = rw split at (not_rf all all_range) in
      let number : int_of db (digit_char check ∷ []) ≡ ok check =
        int_of_char db _ check (decimal-digit_char db check h) in
      let full : is_empty s ≡ false = not_empty s (omega arith) in
      let total : sum_weighted db 0 0 (reverse (map digit_char ds)) ≡ ok (weighted ds) =
        sum_weighted-reverse db ds range in
      rw (strip_codes db s code, compact_lem db s code, full, finnish, tested)
        (ground (
          arith,
          size,
          number,
          total,
          last_char-snoc (map digit_char ds) (digit_char check),
          but_last-snoc (map digit_char ds) (digit_char check),
        ))

  compare_check-passed_iff :
      (total check : ℕ)
      → check < 10
      → ((compare_check check ((10 - total % 10) % 10)).passed ≡ true) ↔ ((total + check) % 10 ≡ 0)
  unfolding compare_check
  compare_check-passed_iff total check h = ground arith

  -- A reference number that is written as 4 to 20 digits passes exactly when its digits, weighted
  -- 1, 7, 3, 1, 7, 3, ... from the last one on, sum to a multiple of 10.
  pub reference_number-passed_iff :
      (ds : List ℕ) (check : ℕ)
      → IsBody ds
      → check < 10
      → (is_pass (reference_number db (some (reference_text ds check))) ≡ true)
        ↔ ((weighted ds + check) % 10 ≡ 0)
  reference_number-passed_iff ds check b h =
      rw (digits_reference ds check b h) (compare_check-passed_iff (weighted ds) check h)

-- a digit changed, with `n` digits to its right
fi_weight-ne :
    (b d e n : ℕ)
    → d < 10
    → e < 10
    → (b + d * fi_weight n) % 10 ≡ 0
    → (b + e * fi_weight n) % 10 ≡ 0
    → d ≡ e
fi_weight-ne b d e n hd he p q = ground arith

same_digit :
    (b : ℕ) (pre post : List ℕ) (d e : ℕ)
    → d < 10
    → e < 10
    → (b + weighted (pre ++ d ∷ post)) % 10 ≡ 0
    → (b + weighted (pre ++ e ∷ post)) % 10 ≡ 0
    → d ≡ e
unfolding weighted
same_digit b [] post d e hd he p q =
    fi_weight-ne (b + weighted post) d e (length post) hd he (omega (arith, p)) (omega (arith, q))
same_digit b (x ∷ pre) post d e hd he p q =
    let w = x * fi_weight (length (pre ++ d ∷ post)) in
    let same : x * fi_weight (length (pre ++ e ∷ post)) ≡ w =
      let sizes : length (pre ++ e ∷ post) ≡ length (pre ++ d ∷ post) =
        omega (arith, length-append pre (d ∷ post), length-append pre (e ∷ post)) in
      ap (λ n. x * fi_weight n) sizes in
    same_digit (b + w) pre post d e hd he (omega arith) (omega (arith, same))

module _ (db : CharDb) where
  -- If a Finnish reference number passes, no other that differs from it in one digit passes.
  pub reference_number_substitution :
      (pre post : List ℕ) (d e check : ℕ)
      → IsBody (pre ++ d ∷ post)
      → IsBody (pre ++ e ∷ post)
      → check < 10
      → d ≢ e
      → is_pass (reference_number db (some (reference_text (pre ++ d ∷ post) check))) ≡ true
      → is_pass (reference_number db (some (reference_text (pre ++ e ∷ post) check))) ≡ false
  reference_number_substitution pre post d e check hd he h different passed =
      false_of_ne_true _ λ both. different (
        same_digit check pre post d e (All-middle _ pre post d hd.0) (All-middle _ pre post e he.0)
          (omega (arith, (reference_number-passed_iff db (pre ++ d ∷ post) check hd h).0 passed))
          (omega (arith, (reference_number-passed_iff db (pre ++ e ∷ post) check he h).0 both)))
