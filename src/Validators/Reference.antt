-- ===== src/Validators/Reference.antt =====
-- validators/reference.py: the Finnish reference number (7-3-1) and the RF creditor reference.
pub mod Finnish
pub mod Rf
pub mod Rule
mod Tests
use mathlib.Core.List.{reverse}
use n8n_production_systems.Common.{
  ℕ, suc, ◌+◌, ◌-◌, ◌*◌, ◌%◌, String, Bool, true, false, not, ◌&&◌, ◌||◌, Option, none, some, List,
  [], ◌∷◌, length, take, drop, leb, ◌==◌, if◌then◌else◌, Outcome, ok, raises, index_error, ◌>>=◌,
}
use n8n_production_systems.Text.{Text, CharDb, codes, or_empty, is_empty, starts_with}
use n8n_production_systems.Text.Strip.{strip}
use n8n_production_systems.Text.Words.{join_words}
use n8n_production_systems.Text.Shape.{int_of, str_all}
use n8n_production_systems.Validators.Result.{RuleResult, Value, str, int}
use n8n_production_systems.Validators.Iban.{mod97}

-- FI_WEIGHTS[index % 3]
abbrev pub fi_weight : ℕ → ℕ
fi_weight index = if index % 3 == 0 then 7 else if index % 3 == 1 then 3 else 1

abbrev result : Bool → List (String × Value) → RuleResult
result passed details = record {
  rule = "reference_number";
  field = "reference_number";
  passed = passed;
  details = details;
}

-- text[:-1]
pub but_last : Text → Text
but_last [] = []
but_last (c ∷ []) = []
but_last (c ∷ d ∷ s) = c ∷ but_last (d ∷ s)

-- text[-1]
pub last_char : Text → Outcome ℕ
last_char [] = raises index_error
last_char (c ∷ []) = ok c
last_char (c ∷ d ∷ s) = last_char (d ∷ s)

-- the end of `_finnish_reference`
compare_check : ℕ → ℕ → RuleResult
compare_check actual expected =
    if actual == expected
    then result true (("kind", str "finnish") ∷ ("check_digit", int actual) ∷ [])
    else result false (
        ("reason", str "checksum")
        ∷ ("kind", str "finnish")
        ∷ ("expected_check_digit", int expected)
        ∷ ("actual_check_digit", int actual)
        ∷ [])

-- the end of `_rf_reference`; `none` is the -1 of `_mod97`
conclude_rf : Text → Option ℕ → RuleResult
conclude_rf compacted none = result false (("reason", str "charset") ∷ ("kind", str "rf") ∷ [])
conclude_rf compacted (some remainder) =
    if not (remainder == 1)
    then result false
        (("reason", str "checksum") ∷ ("kind", str "rf") ∷ ("remainder", int remainder) ∷ [])
    else result true (("kind", str "rf") ∷ ("length", int (length compacted)) ∷ [])

module _ (db : CharDb) where
  unfoldable pub compact : Text → Text
  compact given = db.upper (join_words db given)

  -- the loop of `_finnish_check_digit` over the reversed body
  pub sum_weighted : ℕ → ℕ → Text → Outcome ℕ
  sum_weighted index total [] = ok total
  sum_weighted index total (c ∷ s) = elim (int_of db (c ∷ [])) [
    | raises e ↦ raises e
    | ok d ↦ sum_weighted (index + 1) (total + d * fi_weight index) s
  ]

  pub finnish_check_digit : Text → Outcome ℕ
  unfolding sum_weighted
  finnish_check_digit body = do total ← sum_weighted 0 0 (reverse body); ok ((10 - total % 10) % 10)

  pub finnish_reference : Text → Outcome RuleResult
  unfolding compare_check
  finnish_reference compacted =
      if not (str_all db.is_digit compacted)
      then ok (result false (("reason", str "charset") ∷ ("kind", str "finnish") ∷ []))
      else if not (leb 4 (length compacted) && leb (length compacted) 20)
      then ok (
          result false (
            ("reason", str "length")
            ∷ ("kind", str "finnish")
            ∷ ("length", int (length compacted))
            ∷ []))
      else do
        last ← last_char compacted
        actual ← int_of db (last ∷ [])
        expected ← finnish_check_digit (but_last compacted)
        ok (compare_check actual expected)

  pub rf_reference : Text → Outcome RuleResult
  unfolding conclude_rf
  rf_reference compacted =
      if not (leb 5 (length compacted) && leb (length compacted) 25)
      then ok (
          result false (
            ("reason", str "length")
            ∷ ("kind", str "rf")
            ∷ ("length", int (length compacted))
            ∷ []))
      else if not (str_all db.is_digit (take 2 (drop 2 compacted)))
      then ok (result false (("reason", str "format") ∷ ("kind", str "rf") ∷ []))
      else if is_empty (drop 4 compacted) || not (str_all db.is_alnum (drop 4 compacted))
      then ok (result false (("reason", str "charset") ∷ ("kind", str "rf") ∷ []))
      else do remainder ← mod97 db compacted; ok (conclude_rf compacted remainder)

  unfoldable pub reference_number : Option Text → Outcome RuleResult
  reference_number given =
      let raw = strip db (or_empty given) in
      let compacted = compact raw in
      if is_empty raw
      then ok (result false (("reason", str "empty") ∷ []))
      else if starts_with (codes "RF") compacted
      then rf_reference compacted
      else finnish_reference compacted
