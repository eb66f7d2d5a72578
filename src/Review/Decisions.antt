-- ===== src/Review/Decisions.antt =====
-- decisions.py. The SQL text is modelled in Review/Database.antt. A column that may be NULL is an
-- `Option`; a UUID is a number; a reason, which a reviewer types, is a `Text`.
use text.Mathlib.Text.{◌==◌ as str_eq}
use n8n_production_systems.Common.{
  String, Option, ℕ, Outcome, Bool, if◌then◌else◌, false, ◌==◌, ok, raises, some, value_error, none,
}
use n8n_production_systems.Text.{Text}

abbrev pub pending_status : String
pending_status = "pending"

-- True when the claim matched no row.
abbrev pub already_decided : ℕ → Bool
already_decided returning_rowcount = returning_rowcount == 0

unfoldable pub is_pending : Option String → Bool
is_pending none = false
is_pending (some status) = str_eq status pending_status

unfoldable pub rowcount_for_claim : Option String → ℕ
unfolding is_pending
rowcount_for_claim current_status = if is_pending current_status then 1 else 0

pub record DecisionBody : Type 0 where
  pub callback_workflow_id : Option String
  pub decided_by : String
  pub id : ℕ
  pub kind : Option String
  pub project : Option String
  pub reason : Option Text
  pub status : String
  pub subject_id : Option String

unfoldable pub audit_action : String → Outcome String
audit_action status =
    if str_eq status "approved"
    then ok "review.approve"
    else if str_eq status "rejected"
    then ok "review.reject"
    else raises value_error

-- the JSON under `after`
pub record After : Type 0 where
  pub decided_by : String
  pub reason : Option Text
  pub status : String

-- the status under `before`, and the object under `after`
unfoldable pub audit_payloads : String → String → Option Text → String × After
audit_payloads status decided_by reason =
    (pending_status, record { decided_by = decided_by; reason = reason; status = status })
