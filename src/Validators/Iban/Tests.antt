-- ===== src/Validators/Iban/Tests.antt =====
-- A Finnish IBAN, at which the theorems on `iban_checksum` are applied.
use n8n_production_systems.Validators.Iban.{iban_checksum}
use n8n_production_systems.Validators.Iban.Checksum.{
  IsIban, iban_text, without_check, well_formed-passed_iff,
}
use n8n_production_systems.Validators.Iban.Mod97.{numeral_from}
use n8n_production_systems.Validators.Iban.Errors.{
  iban_checksum_substitution, iban_checksum_transposition,
}
use n8n_production_systems.Validators.Result.{is_pass}
use n8n_production_systems.Text.{Text, codes}
use n8n_production_systems.Text.Ascii.{ascii}
use n8n_production_systems.Common.{arith, some, ◌≡◌, refl, true, false, [], ◌↔◌, ◌*◌, ◌+◌, ◌%◌}

-- FI21 1234 5600 0007 85, behind its check digits
abbrev account : Text
account = codes "12345600000785"

abbrev mistyped : Text
mistyped = codes "92345600000785"

abbrev swapped : Text
swapped = codes "21345600000785"

account-IsIban : IsIban b'F' b'I' account
account-IsIban = record {
  country = omega arith;
  rest = ground arith;
  size = omega arith;
  finnish = λ e f. refl;
}

mistyped-IsIban : IsIban b'F' b'I' mistyped
mistyped-IsIban = record {
  country = omega arith;
  rest = ground arith;
  size = omega arith;
  finnish = λ e f. refl;
}

swapped-IsIban : IsIban b'F' b'I' swapped
swapped-IsIban = record {
  country = omega arith;
  rest = ground arith;
  size = omega arith;
  finnish = λ e f. refl;
}

passes : is_pass (iban_checksum ascii (some (iban_text b'F' b'I' 21 account))) ≡ true
unfolding without_check numeral_from
passes = (well_formed-passed_iff ascii 21 account account-IsIban (omega arith)).1 refl

well_formed-passed_iff_example :
    (is_pass (iban_checksum ascii (some (iban_text b'F' b'I' 21 account))) ≡ true)
    ↔ ((without_check b'F' b'I' account * 100 + 21) % 97 ≡ 1)
well_formed-passed_iff_example =
    well_formed-passed_iff ascii 21 account account-IsIban (omega arith)

iban_checksum_substitution_example :
    is_pass (iban_checksum ascii (some (iban_text b'F' b'I' 21 mistyped))) ≡ false
iban_checksum_substitution_example =
    iban_checksum_substitution ascii 21 b'1' b'9' [] (codes "2345600000785") account-IsIban
      mistyped-IsIban (omega arith) (ground arith) (ground arith) passes

iban_checksum_transposition_example :
    is_pass (iban_checksum ascii (some (iban_text b'F' b'I' 21 swapped))) ≡ false
iban_checksum_transposition_example =
    iban_checksum_transposition ascii 21 1 2 [] (codes "345600000785") account-IsIban swapped-IsIban
      (omega arith) (omega arith) (omega arith) (omega arith) passes
