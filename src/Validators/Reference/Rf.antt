-- ===== src/Validators/Reference/Rf.antt =====
-- The RF creditor reference, and the exception that a digit which is no decimal number brings.
use n8n_production_systems.Validators.Reference.{
  conclude_rf, rf_reference, finnish_reference, reference_number, compact, last_char,
}
use n8n_production_systems.Validators.Codes.{IsCode, strip_codes, normal_codes}
use n8n_production_systems.Validators.Iban.Checksum.{without_check, rotated_numeral, iban_text}
use n8n_production_systems.Text.{CharDb, Text, starts_with, is_empty, codes}
use n8n_production_systems.Common.{
  ℕ, ◌≤◌, some, ◌<◌, All, inr, length, ◌≡◌, ok, true, arith, ◌∷◌, ◌↔◌, ◌*◌, false, inl, ◌+◌, [],
  ◌%◌, refl, ◌/◌, ◌-◌, none, raises, value_error,
}
use n8n_production_systems.Text.Shape.{str_all, int_of}
use n8n_production_systems.Validators.Result.{is_pass}
use n8n_production_systems.Validators.Iban.{mod97}
use n8n_production_systems.Validators.Iban.Mod97.{mod97-numeral_from}
use n8n_production_systems.Text.Strip.{strip}

-- `RF`, the check digits, and 1 to 21 digits and capital letters.
abbrev pub rf_text : ℕ → Text → Text
rf_text k payload = iban_text b'R' b'F' k payload

pub record IsPayload (payload : Text) : Type 0 where
  pub code : All IsCode payload
  pub size : (1 ≤ length payload) × (length payload ≤ 21)

All-alnum : (db : CharDb) (s : Text) → All IsCode s → 1 ≤ length s → str_all db.is_alnum s ≡ true
unfolding str_all
All-alnum db [] h n = absurd (omega arith)
All-alnum db (c ∷ []) h n = ground (arith, db.alnum_ascii c)
All-alnum db (c ∷ d ∷ s) h n = ground (arith, db.alnum_ascii c, All-alnum db (d ∷ s) h.1)

rf_codes : (k : ℕ) (payload : Text) → All IsCode payload → k < 100 → All IsCode (rf_text k payload)
rf_codes k payload h small =
    (inr (omega arith), (inr (omega arith), (inl (omega arith), (inl (omega arith), h))))

conclude_rf-passed_iff : (s : Text) (r : ℕ) → ((conclude_rf s (some r)).passed ≡ true) ↔ (r ≡ 1)
unfolding conclude_rf
conclude_rf-passed_iff s r = ground arith

payload_not_empty : (s : Text) → 1 ≤ length s → is_empty s ≡ false
payload_not_empty [] h = absurd (omega arith)
payload_not_empty (c ∷ s) h = refl

module _ (db : CharDb) where
  rf_reference_lem :
      (k : ℕ) (payload : Text)
      → IsPayload payload
      → k < 100
      → rf_reference db (rf_text k payload)
        ≡ ok (
            conclude_rf
              (rf_text k payload)
              (some ((without_check b'R' b'F' payload * 100 + k) % 97)))
  unfolding rf_reference str_all
  rf_reference_lem k payload h small =
      let s = rf_text k payload in
      let code : All IsCode s = rf_codes k payload h.code small in
      let remainder : mod97 db s ≡ ok (some ((without_check b'R' b'F' payload * 100 + k) % 97)) =
        rw (← rotated_numeral b'R' b'F' k payload small) (mod97-numeral_from db s code refl) in
      rw (remainder, payload_not_empty payload h.size.0)
        (ground (
          arith,
          h.size,
          All-alnum db payload h.code h.size.0,
          db.digit_ascii (48 + k / 10),
          db.digit_ascii (48 + k % 10),
        ))

  -- An RF reference passes exactly when its numeral leaves 1 modulo 97.
  pub rf-passed_iff :
      (k : ℕ) (payload : Text)
      → IsPayload payload
      → k < 100
      → (is_pass (reference_number db (some (rf_text k payload))) ≡ true)
        ↔ ((without_check b'R' b'F' payload * 100 + k) % 97 ≡ 1)
  unfolding reference_number starts_with compact
  rf-passed_iff k payload h small =
      let s = rf_text k payload in
      let code : All IsCode s = rf_codes k payload h.code small in
      rw (strip_codes db s code, normal_codes db s code, rf_reference_lem k payload h small)
        (conclude_rf-passed_iff s _)

  -- For each payload there is exactly one number from 02 to 98 with which the RF reference passes.
  pub rf_check_digits_unique :
      (payload : Text)
      → IsPayload payload
      → (k : ℕ) × (2 ≤ k)
        × (k ≤ 98)
        × (is_pass (reference_number db (some (rf_text k payload))) ≡ true)
        × ((j : ℕ)
            → 2 ≤ j
            → j ≤ 98
            → is_pass (reference_number db (some (rf_text j payload))) ≡ true
            → j ≡ k)
  rf_check_digits_unique payload h =
      let n = without_check b'R' b'F' payload in
      let k = 98 - n * 100 % 97 in
      (
        k,
        omega arith,
        omega arith,
        (rf-passed_iff k payload h (omega arith)).1 (omega arith),
        λ j low high passed. omega (arith, (rf-passed_iff j payload h (omega arith)).0 passed),
      )

  -- If the text, stripped and compacted, is 4 to 20 characters that `isdigit` accepts and the last
  -- is no decimal digit (a superscript, say), `reference_number` raises a `ValueError`.
  pub reference_number-raises :
      (given : Text) (c : ℕ)
      → let s = compact db (strip db given) in
        is_empty (strip db given) ≡ false
        → starts_with (codes "RF") s ≡ false
        → str_all db.is_digit s ≡ true
        → 4 ≤ length s
        → length s ≤ 20
        → last_char s ≡ ok c
        → db.decimal c ≡ none
        → reference_number db (some given) ≡ raises value_error
  unfolding reference_number finnish_reference int_of
  reference_number-raises given c full finnish tested low high last bad =
      rw (full, finnish, tested, last) (ground (arith, low, high, bad))
