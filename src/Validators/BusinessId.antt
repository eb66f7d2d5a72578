-- ===== src/Validators/BusinessId.antt =====
-- validators/business_id.py: the checksum of a Finnish Y-tunnus.
pub mod Checksum
pub mod Errors
mod Tests
use n8n_production_systems.Common.{
  ℕ, ◌+◌, ◌-◌, ◌*◌, ◌%◌, String, Bool, true, false, Option, none, some, List, [], ◌∷◌, ◌++◌, map,
  ◌==◌, if◌then◌else◌,
}
use n8n_production_systems.Text.{Text, CharDb, or_empty, is_empty}
use n8n_production_systems.Text.Strip.{strip}
use n8n_production_systems.Text.Shape.{Piece, lit, digits, full_match, value, digit_char}
use n8n_production_systems.Validators.Result.{RuleResult, Value, str, int}

abbrev pub weights : List ℕ
weights = 7 ∷ 9 ∷ 10 ∷ 5 ∷ 8 ∷ 4 ∷ 2 ∷ []

-- ^(\d{7})-(\d)$
abbrev pub id_pattern : List Piece
id_pattern = digits 7 ∷ lit b'-' ∷ digits 1 ∷ []

abbrev result : Bool → List (String × Value) → RuleResult
result passed details = record {
  rule = "business_id_checksum";
  field = "supplier_business_id";
  passed = passed;
  details = details;
}

-- the pattern leaves as many digits as there are weights, so `zip` is never uneven
pub weighted_sum : List ℕ → List ℕ → ℕ
weighted_sum (d ∷ ds) (w ∷ ws) = d * w + weighted_sum ds ws
weighted_sum _ _ = 0

-- what follows `total = sum(…)`
judge : ℕ → ℕ → RuleResult
judge total actual =
    let remainder = total % 11 in
    let expected = if remainder == 0 then 0 else 11 - remainder in
    if remainder == 1
    then result false
        (("reason", str "remainder_1") ∷ ("remainder", int remainder) ∷ ("sum", int total) ∷ [])
    else if actual == expected
    then result true (("check_digit", int actual) ∷ ("remainder", int remainder) ∷ [])
    else result false (
        ("reason", str "checksum")
        ∷ ("expected_check_digit", int expected)
        ∷ ("actual_check_digit", int actual)
        ∷ ("remainder", int remainder)
        ∷ [])

check_groups : Option (List (List ℕ)) → RuleResult
unfolding judge weighted_sum
check_groups (some (body ∷ check ∷ [])) = judge (weighted_sum body weights) (value check)
check_groups _ = result false (("reason", str "format") ∷ ("expected", str "NNNNNNN-N") ∷ [])

module _ (db : CharDb) where
  unfoldable pub business_id_checksum : Option Text → RuleResult
  unfolding check_groups
  business_id_checksum raw_value =
      let raw = strip db (or_empty raw_value) in
      if is_empty raw
      then result false (("reason", str "empty") ∷ [])
      else check_groups (full_match db id_pattern raw)

-- How an identifier is written.
abbrev pub id_text : List ℕ → ℕ → Text
id_text body check = map digit_char body ++ b'-' ∷ digit_char check ∷ []
