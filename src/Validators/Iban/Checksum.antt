-- ===== src/Validators/Iban/Checksum.antt =====
-- What `iban_checksum` accepts, the check digits that it wants, and the errors that it detects.
use n8n_production_systems.Validators.Iban.{compact, iban_checksum, conclude, mod97}
use n8n_production_systems.Validators.Codes.{IsCode, codes-Solid, normal_codes}
use n8n_production_systems.Validators.Iban.Mod97.{
  numeral_from, rotated, mod97-numeral_from, numeral_from-append, numeral_from_digits,
}
use n8n_production_systems.Text.{CharDb, Text, starts_with, or_empty}
use n8n_production_systems.Common.{
  ℕ, All, ◌≡◌, ◌<◌, some, ok, ◌≤◌, arith, length, ◌%◌, ◌∷◌, true, [], refl, inl, ◌++◌, ◌*◌, ap, ◌∙◌,
  ◌/◌, ◌+◌, sym, append_assoc, ◌↔◌, Option, none, Outcome, ◌>>=◌, raises,
}
use n8n_production_systems.Text.Strip.{strip-Solid, strip}
use n8n_production_systems.Text.Shape.{str_all, digit_char}
use n8n_production_systems.Validators.Result.{is_pass, RuleResult}

-- The parts of an IBAN: two capital letters, and 11 to 30 digits and capital letters behind the
-- check digits, which are 14 in a Finnish one.
pub record IsIban (a b : ℕ) (bban : Text) : Type 0 where
  pub country : (b'A' ≤ a) × (a ≤ b'Z') × (b'A' ≤ b) × (b ≤ b'Z')
  pub rest : All IsCode bban
  pub size : (11 ≤ length bban) × (length bban ≤ 30)
  pub finnish : a ≡ b'F' → b ≡ b'I' → length bban ≡ 14

-- The IBAN with the number `k` for its two check digits.
abbrev pub iban_text : ℕ → ℕ → ℕ → Text → Text
iban_text a b k bban = a ∷ b ∷ digit_char (k / 10) ∷ digit_char (k % 10) ∷ bban

-- the numeral of the characters behind the check digits and of the country
unfoldable pub without_check : ℕ → ℕ → Text → ℕ
without_check a b bban = numeral_from 0 (bban ++ a ∷ b ∷ [])

pub rotated_numeral :
    (a b k : ℕ) (bban : Text)
    → k < 100
    → numeral_from 0 (rotated (iban_text a b k bban)) ≡ without_check a b bban * 100 + k
unfolding without_check
rotated_numeral a b k bban h =
    ap (numeral_from 0)
      (sym (append_assoc bban (a ∷ b ∷ []) (digit_char (k / 10) ∷ digit_char (k % 10) ∷ [])))
    ∙ numeral_from-append 0 (bban ++ a ∷ b ∷ []) _
    ∙ numeral_from_digits _ k h

iban_text-codes :
    (a b k : ℕ) (bban : Text) → IsIban a b bban → k < 100 → All IsCode (iban_text a b k bban)
iban_text-codes a b k bban h small =
    (ground arith, (ground arith, (inl (omega arith), (inl (omega arith), h.rest))))

module _ (db : CharDb) where
  compact_codes : (s : Text) → All IsCode s → compact db s ≡ s
  unfolding compact
  compact_codes s h = normal_codes db s h

  -- the guards before the checksum let a well-formed IBAN through
  iban_checksum_well_formed :
      (a b k : ℕ) (bban : Text)
      → IsIban a b bban
      → k < 100
      → iban_checksum db (some (iban_text a b k bban))
        ≡ ok (conclude (iban_text a b k bban) (some ((without_check a b bban * 100 + k) % 97)))
  unfolding iban_checksum str_all starts_with
  iban_checksum_well_formed a b k bban h small =
      let s = iban_text a b k bban in
      let all_codes : All IsCode s = iban_text-codes a b k bban h small in
      let stripped : strip db s ≡ s = strip-Solid db s (codes-Solid db s all_codes) in
      let compacted : compact db s ≡ s = compact_codes s all_codes in
      let remainder : mod97 db s ≡ ok (some ((without_check a b bban * 100 + k) % 97)) =
        rw (← rotated_numeral a b k bban small) (mod97-numeral_from db s all_codes refl) in
      rw (stripped, compacted, remainder)
        (ground (
          arith,
          h.country,
          h.size,
          h.finnish,
          db.alpha_ascii a,
          db.alpha_ascii b,
          db.digit_ascii (48 + k / 10),
          db.digit_ascii (48 + k % 10),
        ))

  passed_iff : (s : Text) (r : ℕ) → ((conclude s (some r)).passed ≡ true) ↔ (r ≡ 1)
  unfolding conclude
  passed_iff s r = ground arith

module _ (db : CharDb) {a b : ℕ} where
  -- A well-formed IBAN, with the number `k` for its two check digits, passes exactly when its
  -- numeral, the country and the check digits put behind the rest, leaves 1 modulo 97.
  pub well_formed-passed_iff :
      (k : ℕ) (bban : Text)
      → IsIban a b bban
      → k < 100
      → (is_pass (iban_checksum db (some (iban_text a b k bban))) ≡ true)
        ↔ ((without_check a b bban * 100 + k) % 97 ≡ 1)
  well_formed-passed_iff k bban h small =
      rw (iban_checksum_well_formed db a b k bban h small) (passed_iff db (iban_text a b k bban) _)

conclude-rule : (s : Text) (o : Option ℕ) → (conclude s o).rule ≡ "iban_checksum"
unfolding conclude
conclude-rule s none = refl
conclude-rule s (some n) = ground arith

bind-rule :
    (s : Text) (m : Outcome (Option ℕ)) (r : RuleResult)
    → (m >>= λ n. ok (conclude s n)) ≡ ok r
    → r.rule ≡ "iban_checksum"
bind-rule s (raises e) r h = cc
bind-rule s (ok n) r h =
    let is : conclude s n ≡ r = ground (arith, h) in rw (← is) (conclude-rule s n)

pub iban_checksum-rule :
    (db : CharDb) (given : Option Text) (r : RuleResult)
    → iban_checksum db given ≡ ok r
    → r.rule ≡ "iban_checksum"
unfolding iban_checksum
iban_checksum-rule db given r h = ground (
  arith,
  h,
  bind-rule (compact db (strip db (or_empty given)))
      (mod97 db (compact db (strip db (or_empty given)))) r,
)
