-- ===== src/Review/App.antt =====
-- app.py: `_decide`, the handler that decides a review.
pub mod Once
pub mod Final
pub mod Phases
pub mod Faults
use text.Mathlib.Text.{◌==◌ as str_eq}
use n8n_production_systems.Review.Decisions.{DecisionBody}
use n8n_production_systems.Review.Database.{Db, Row, Claim, Weather, apply_decision}
use n8n_production_systems.Common.{
  String, Bool, List, Outcome, ℕ, Option, if◌then◌else◌, raises, ok, none, some, ◌++◌, ◌∷◌, [],
  database_unavailable,
}
use n8n_production_systems.Text.{CharDb, Text, is_empty}
use n8n_production_systems.Text.Strip.{strip}

-- `posted` are the bodies that `post_decision` was called with, in order.
pub record State : Type 0 where
  pub db : Db
  pub posted : List DecisionBody

-- the world during one request: the database, whether the webhook answers, and the time
pub record World : Type 0 where
  pub weather : Weather
  pub receiver_ok : Bool
  pub now : ℕ

-- `reason.strip() or None`
abbrev pub reason_value : CharDb → Text → Option Text
reason_value db reason = let s = strip db reason in if is_empty s then none else some s

abbrev pub claim_of : CharDb → World → ℕ → String → String → Text → Claim
claim_of chars w id status actor reason = record {
  id = id;
  status = status;
  decided_by = actor;
  decision = record { reason = reason_value chars reason; status = status };
  now = w.now;
}

abbrev pub body_of : Claim → Row → DecisionBody
body_of c claimed = record {
  callback_workflow_id = claimed.callback_workflow_id;
  decided_by = c.decided_by;
  id = c.id;
  kind = claimed.kind;
  project = claimed.project;
  reason = c.decision.reason;
  status = c.status;
  subject_id = claimed.subject_id;
}

-- the notice after `post_decision`
abbrev pub notice_of : Bool → String → String
notice_of receiver_ok status =
    if receiver_ok
    then (if str_eq status "approved" then "approved" else "rejected")
    else (if str_eq status "approved"
        then "approved_receiver_failed"
        else "rejected_receiver_failed")

-- `_decide` behind `apply_decision`; the result is the notice of the redirect
finish : World → Claim → State → Outcome (Option Row) × Db → Outcome String × State
finish w c s (raises database_unavailable, db) = (ok "db_error", record s { db = db })
finish w c s (raises e, db) = (raises e, record s { db = db })
finish w c s (ok none, db) = (ok "already_decided", record s { db = db })
finish w c s (ok (some claimed), db) = (
  ok (notice_of w.receiver_ok c.status),
  record { db = db; posted = s.posted ++ body_of c claimed ∷ [] },
)

pub decide : CharDb → World → State → ℕ → String → String → Text → Outcome String × State
unfolding finish
decide chars w s id status actor reason =
    let c = claim_of chars w id status actor reason in
    finish w c s (apply_decision w.weather s.db c)

-- POST /reviews/{id}/approve and /reject
pub data Verb : Type 0 where
  approve reject : Verb

abbrev pub status_of : Verb → String
status_of approve = "approved"
status_of reject = "rejected"

pub record Request : Type 0 where
  pub verb : Verb
  pub id : ℕ
  pub actor : String
  pub reason : Text

pub handle : CharDb → World → State → Request → Outcome String × State
handle chars w s r = decide chars w s r.id (status_of r.verb) r.actor r.reason

-- Requests of any reviewers, one after the other: a database orders the claims of one row.
pub run : CharDb → State → List (World × Request) → State
run chars s [] = s
run chars s ((w, r) ∷ rest) = run chars (handle chars w s r).1 rest
