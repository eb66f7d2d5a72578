-- ===== src/Validators/Iban/Errors.antt =====
-- The check digits that an IBAN wants, and the errors of typing that `iban_checksum` detects.
use n8n_production_systems.Validators.Iban.{iban_checksum}
use n8n_production_systems.Validators.Iban.Mod97.{
  numeral_from, numeral_from-cancel, numeral_from-append, SameKind, add_code-ne, add_codes_swapped,
  changed_tail,
}
use n8n_production_systems.Validators.Iban.Checksum.{
  IsIban, iban_text, without_check, well_formed-passed_iff,
}
use n8n_production_systems.Text.{CharDb, Text}
use n8n_production_systems.Common.{
  ℕ, ◌≡◌, ◌<◌, ◌≤◌, some, true, ◌%◌, ◌-◌, ◌*◌, arith, ◌∷◌, ◌++◌, [], ◌≢◌, false, false_of_ne_true,
}
use n8n_production_systems.Validators.Result.{is_pass}
use n8n_production_systems.Text.Shape.{digit_char}

module _ (db : CharDb) {a b : ℕ} where
  -- For each country and each text behind the check digits there is exactly one number from 02
  -- to 98 with which the IBAN passes.
  pub iban_check_digits_unique :
      (bban : Text)
      → IsIban a b bban
      → (k : ℕ) × (2 ≤ k)
        × (k ≤ 98)
        × (is_pass (iban_checksum db (some (iban_text a b k bban))) ≡ true)
        × ((j : ℕ)
            → 2 ≤ j
            → j ≤ 98
            → is_pass (iban_checksum db (some (iban_text a b j bban))) ≡ true
            → j ≡ k)
  iban_check_digits_unique bban h =
      let n = without_check a b bban in
      let k = 98 - n * 100 % 97 in
      (
        k,
        omega arith,
        omega arith,
        (well_formed-passed_iff db k bban h (omega arith)).1 (omega arith),
        λ j low high passed.
            omega (arith, (well_formed-passed_iff db j bban h (omega arith)).0 passed),
      )

  -- numerals that leave 1 agree modulo 97, whatever the check digits
  both_pass :
      (k : ℕ) (s t : Text)
      → IsIban a b s
      → IsIban a b t
      → k < 100
      → is_pass (iban_checksum db (some (iban_text a b k s))) ≡ true
      → is_pass (iban_checksum db (some (iban_text a b k t))) ≡ true
      → numeral_from 0 s % 97 ≡ numeral_from 0 t % 97
  both_pass k s t hs ht small ps pt =
      let ds = (well_formed-passed_iff db k s hs small).0 ps in
      let dt = (well_formed-passed_iff db k t ht small).0 pt in
      numeral_from-cancel (numeral_from 0 s) (numeral_from 0 t) (a ∷ b ∷ []) (
        rw (← numeral_from-append 0 s (a ∷ b ∷ []), ← numeral_from-append 0 t (a ∷ b ∷ []))
          (unfold without_check in omega (arith, ds, dt)))

  -- If an IBAN passes, no well-formed IBAN passes that differs from it in one character behind the
  -- check digits, a digit put for a digit or a letter for a letter.
  pub iban_checksum_substitution :
      (k x y : ℕ) (pre post : Text)
      → IsIban a b (pre ++ x ∷ post)
      → IsIban a b (pre ++ y ∷ post)
      → k < 100
      → SameKind x y
      → x ≢ y
      → is_pass (iban_checksum db (some (iban_text a b k (pre ++ x ∷ post)))) ≡ true
      → is_pass (iban_checksum db (some (iban_text a b k (pre ++ y ∷ post)))) ≡ false
  iban_checksum_substitution k x y pre post hx hy small same different passed =
      false_of_ne_true _ λ both. different (
        add_code-ne (numeral_from 0 pre) x y same (
          changed_tail pre (x ∷ []) (y ∷ []) post
            (both_pass k (pre ++ x ∷ post) (pre ++ y ∷ post) hx hy small passed both)))

  -- If an IBAN passes, it does not pass with two adjacent digits behind the check digits swapped,
  -- unless they are equal.
  pub iban_checksum_transposition :
      (k x y : ℕ) (pre post : Text)
      → IsIban a b (pre ++ digit_char x ∷ digit_char y ∷ post)
      → IsIban a b (pre ++ digit_char y ∷ digit_char x ∷ post)
      → k < 100
      → x < 10
      → y < 10
      → x ≢ y
      → is_pass
          (iban_checksum db (some (iban_text a b k (pre ++ digit_char x ∷ digit_char y ∷ post))))
        ≡ true
      → is_pass
          (iban_checksum db (some (iban_text a b k (pre ++ digit_char y ∷ digit_char x ∷ post))))
        ≡ false
  iban_checksum_transposition k x y pre post hx hy small sx sy different passed =
      false_of_ne_true _ λ both. different (
        add_codes_swapped (numeral_from 0 pre) x y sx sy (
          changed_tail pre (digit_char x ∷ digit_char y ∷ []) (digit_char y ∷ digit_char x ∷ [])
            post (both_pass k _ _ hx hy small passed both)))
