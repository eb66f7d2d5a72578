-- ===== src/Review/Database.antt =====
-- db.py, and the statements that it runs: ops.review_queue and ops.audit_log as lists of rows. A
-- statement sees the table of one moment (Postgres locks the row that an UPDATE changes), and
-- `conn.transaction()` keeps all its statements or none.
pub mod Claims
pub mod Pending
use n8n_production_systems.Review.Decisions.{
  is_pending, already_decided, audit_action, audit_payloads, After,
}
use n8n_production_systems.Common.{
  String, some, List, Option, Outcome, Bool, ℕ, ◌==◌, none, ◌∷◌, ok, raises, database_unavailable,
  ◌&&◌, ◌++◌, if◌then◌else◌, [],
}
use n8n_production_systems.Text.{Text}

-- the JSON under `decision`
pub record Decision : Type 0 where
  pub reason : Option Text
  pub status : String

-- `payload` is never looked into; `created_at` and `decided_at` are times
pub record Row : Type 0 where
  pub id : ℕ
  pub project : Option String
  pub kind : Option String
  pub subject_id : Option String
  pub payload : Option String
  pub status : Option String
  pub created_at : ℕ
  pub decided_at : Option ℕ
  pub decided_by : Option String
  pub decision : Option Decision
  pub callback_workflow_id : Option String

pub record Audit : Type 0 where
  pub actor_type : String
  pub actor_id : String
  pub project : Option String
  pub action : String
  pub subject_type : String
  pub subject_id : ℕ
  pub before : String
  pub after : After
  pub reason : Option Text

pub record Db : Type 0 where
  pub queue : List Row
  pub audit : List Audit

-- the parameters of CLAIM_DECISION_SQL; `now` is the time of the transaction
pub record Claim : Type 0 where
  pub id : ℕ
  pub status : String
  pub decided_by : String
  pub decision : Decision
  pub now : ℕ

-- WHERE id = %(id)s AND status = 'pending'
unfoldable pub claimable : Claim → Row → Bool
claimable c r = r.id == c.id && is_pending r.status

-- SET status = …, decided_at = now(), decided_by = …, decision = …
unfoldable pub decide_row : Claim → Row → Row
decide_row c r = record r {
  status = some c.status;
  decided_at = some c.now;
  decided_by = some c.decided_by;
  decision = some c.decision;
}

-- the table after the UPDATE
unfoldable pub update_queue : Claim → List Row → List Row
unfolding claimable decide_row
update_queue c [] = []
update_queue c (r ∷ rs) = (if claimable c r then decide_row c r else r) ∷ update_queue c rs

-- RETURNING
unfoldable pub returned : Claim → List Row → List Row
unfolding claimable decide_row
returned c [] = []
returned c (r ∷ rs) = if claimable c r then decide_row c r ∷ returned c rs else returned c rs

-- GET_ITEM_SQL
unfoldable pub get_item : List Row → ℕ → Option Row
get_item [] id = none
get_item (r ∷ rs) id = if r.id == id then some r else get_item rs id

-- WHERE status = 'pending'; the ORDER BY of LIST_PENDING_SQL is a parameter of the pages
unfoldable pub pending_rows : List Row → List Row
pending_rows [] = []
pending_rows (r ∷ rs) = if is_pending r.status then r ∷ pending_rows rs else pending_rows rs

-- What the server does during one call of `apply_decision`: it may be unreachable, or fail inside
-- the transaction, which is then rolled back. A commit whose answer is lost is not modelled.
pub data Weather : Type 0 where
  fine unreachable fails : Weather

audit_row : Claim → Row → String → Audit
audit_row c claimed action =
    let (before, after) = audit_payloads c.status c.decided_by c.decision.reason in
    record {
      actor_type = "human";
      actor_id = c.decided_by;
      project = claimed.project;
      action = action;
      subject_type = "review_queue";
      subject_id = c.id;
      before = before;
      after = after;
      reason = c.decision.reason;
    }

-- The transaction, on the rows that the claim returned. An unsupported status raises after the
-- claim, and undoes it. No row is a row count of 0, which is `already_decided`.
unfoldable pub transact : Db → Claim → List Row → Outcome (Option Row) × Db
unfolding audit_row
transact db c [] = (ok none, db)
transact db c (claimed ∷ more) = elim (audit_action c.status) [
  | raises e ↦ (raises e, db)
  | ok action ↦ (
    ok (some claimed),
    record { queue = update_queue c db.queue; audit = db.audit ++ audit_row c claimed action ∷ [] },
  )
]

unfoldable pub apply_decision : Weather → Db → Claim → Outcome (Option Row) × Db
unfolding transact
apply_decision unreachable db c = (raises database_unavailable, db)
apply_decision fails db c = (raises database_unavailable, db)
apply_decision fine db c = transact db c (returned c db.queue)
