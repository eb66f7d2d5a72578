-- ===== src/Validators/Iban.antt =====
-- validators/iban.py: the ISO 13616 checksum.
pub mod Mod97
pub mod Checksum
pub mod Errors
mod Tests
use n8n_production_systems.Common.{
  ℕ, ◌+◌, ◌-◌, ◌%◌, String, Bool, true, false, not, ◌&&◌, ◌||◌, Option, none, some, List, [], ◌∷◌,
  ◌++◌, length, take, drop, leb, ltb, ◌==◌, if◌then◌else◌, Outcome, ok, ◌>>=◌,
}
use n8n_production_systems.Text.{
  Text, CharDb, codes, or_empty, is_empty, starts_with, is_upper_letter,
}
use n8n_production_systems.Text.Strip.{strip}
use n8n_production_systems.Text.Words.{join_words}
use n8n_production_systems.Text.Show.{show}
use n8n_production_systems.Text.Shape.{int_of, str_all}
use n8n_production_systems.Validators.Result.{RuleResult, Value, str, int, text}

abbrev pub fi_length : ℕ
fi_length = 18

abbrev result : Bool → List (String × Value) → RuleResult
result passed details = record {
  rule = "iban_checksum";
  field = "iban";
  passed = passed;
  details = details;
}

append_digits : Text → Option Text → Option Text
append_digits ds none = none
append_digits ds (some rest) = some (ds ++ rest)

-- what follows `_mod97`; `none` is its -1
pub conclude : Text → Option ℕ → RuleResult
conclude compacted none = result false (("reason", str "charset") ∷ [])
conclude compacted (some remainder) =
    if not (remainder == 1)
    then result false (("reason", str "checksum") ∷ ("remainder", int remainder) ∷ [])
    else result true
        (("country", text (take 2 compacted)) ∷ ("length", int (length compacted)) ∷ [])

module _ (db : CharDb) where
  unfoldable pub compact : Text → Text
  compact given = db.upper (join_words db given)

  -- the loop of `_mod97`; `none` is its `return -1`
  expand : Text → Option Text
  unfolding append_digits
  expand [] = some []
  expand (c ∷ s) =
      if db.is_digit c
      then append_digits (c ∷ []) (expand s)
      else if is_upper_letter c
      then append_digits (show (c - 55)) (expand s)
      else none

  pub mod97 : Text → Outcome (Option ℕ)
  mod97 iban = elim (expand (drop 4 iban ++ take 4 iban)) [
    | none ↦ ok none
    | some ds ↦ do n ← int_of db ds; ok (some (n % 97))
  ]

  unfoldable pub iban_checksum : Option Text → Outcome RuleResult
  unfolding conclude
  iban_checksum given =
      let raw = strip db (or_empty given) in
      let compacted = compact raw in
      if is_empty raw
      then ok (result false (("reason", str "empty") ∷ []))
      else if ltb (length compacted) 15 || ltb 34 (length compacted)
      then ok (result false (("reason", str "length") ∷ ("length", int (length compacted)) ∷ []))
      else if not (str_all db.is_alpha (take 2 compacted))
          || not (str_all db.is_digit (take 2 (drop 2 compacted)))
      then ok (result false (("reason", str "format") ∷ []))
      else if starts_with (codes "FI") compacted && not (length compacted == fi_length)
      then ok (
          result false (
            ("reason", str "fi_length")
            ∷ ("length", int (length compacted))
            ∷ ("expected", int fi_length)
            ∷ []))
      else do remainder ← mod97 compacted; ok (conclude compacted remainder)
