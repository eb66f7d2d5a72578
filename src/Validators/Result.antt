-- ===== src/Validators/Result.antt =====
-- validators/result.py. A literal of the program is a `String`, a text from outside a `Text`.
use n8n_production_systems.Common.{ℕ, String, Bool, List, Outcome, ok, raises, false}
use n8n_production_systems.Text.{Text}

-- an entry of the list under `mismatches` (vat.py); the amounts stand as they are printed
pub record Mismatch : Type 0 where
  pub index : ℕ
  pub rate : Text
  pub base : Text
  pub vat : Text
  pub expected_vat : Text

pub data Value : Type 0 where
  str : String → Value
  text : Text → Value
  int : ℕ → Value
  texts : List Text → Value
  mismatches : List Mismatch → Value

pub record RuleResult : Type 0 where
  pub rule : String
  pub field : String
  pub passed : Bool
  pub details : List (String × Value)

-- the rule passed, and nothing was raised
abbrev pub is_pass : Outcome RuleResult → Bool
is_pass (ok r) = r.passed
is_pass (raises e) = false
