-- ===== src/Review/App/Faults.antt =====
-- What one request comes to, in every case: the row's state and the database's decide.
use n8n_production_systems.Review.Decisions.{is_pending, audit_action, audit_payloads}
use n8n_production_systems.Review.Database.{
  Db, Row, Claim, Audit, Weather, fine, unreachable, fails, decide_row, update_queue, returned,
  get_item, transact, apply_decision,
}
use n8n_production_systems.Review.Database.Claims.{UniqueIds, returned_of, returned_lem}
use n8n_production_systems.Review.App.{
  State, World, Request, Verb, approve, reject, status_of, claim_of, body_of, notice_of, finish,
  decide, handle,
}
use n8n_production_systems.Common.{
  String, ◌≡◌, Outcome, ◌++◌, Option, ok, some, refl, ◌∷◌, [], if◌then◌else◌, none, arith, List,
  ◌≢◌, Bool-cases, inl, raises, database_unavailable, inr,
}
use n8n_production_systems.Text.{CharDb}

-- the action in the audit log
abbrev pub action_of : Verb → String
action_of approve = "review.approve"
action_of reject = "review.reject"

audit_action-status_of : (v : Verb) → audit_action (status_of v) ≡ ok (action_of v)
unfolding audit_action
audit_action-status_of approve = refl
audit_action-status_of reject = refl

abbrev pub claim_in : CharDb → World → Request → Claim
claim_in chars w r = claim_of chars w r.id (status_of r.verb) r.actor r.reason

-- the entry of the audit log for a decided row
abbrev pub entry_of : CharDb → World → Request → Row → Audit
entry_of chars w r row =
    let c = claim_in chars w r in
    record {
      actor_type = "human";
      actor_id = r.actor;
      project = row.project;
      action = action_of r.verb;
      subject_type = "review_queue";
      subject_id = r.id;
      before = "pending";
      after = record {
        decided_by = r.actor;
        reason = c.decision.reason;
        status = status_of r.verb;
      };
      reason = c.decision.reason;
    }

-- the state after a decision of `row`
abbrev pub decided_state : CharDb → World → State → Request → Row → State
decided_state chars w s r row =
    let c = claim_in chars w r in
    record {
      db = record {
        queue = update_queue c s.db.queue;
        audit = s.db.audit ++ entry_of chars w r row ∷ [];
      };
      posted = s.posted ++ body_of c row ∷ [];
    }

-- The answer and the state that a request leads to, by the row that has its id.
abbrev pub answer : CharDb → World → State → Request → Option Row → Outcome String × State
answer chars w s r none = (ok "already_decided", s)
answer chars w s r (some row) =
    if is_pending row.status
    then (ok (notice_of w.receiver_ok (status_of r.verb)), decided_state chars w s r row)
    else (ok "already_decided", s)

abbrev pub answer_in : Weather → Outcome String × State → State → Outcome String × State
answer_in fine a s = a
answer_in unreachable a s = (ok "db_error", s)
answer_in fails a s = (ok "db_error", s)

module _ (chars : CharDb) where
  apply_broken :
      (weather : Weather) (db : Db) (c : Claim)
      → weather ≢ fine
      → apply_decision weather db c ≡ (raises database_unavailable, db)
  unfolding apply_decision
  apply_broken fine db c h = absurd (h refl)
  apply_broken unreachable db c h = refl
  apply_broken fails db c h = refl

  finish_broken :
      (w : World) (s : State) (r : Request)
      → w.weather ≢ fine
      → handle chars w s r ≡ (ok "db_error", s)
  unfolding handle decide finish
  finish_broken w s r h = rw (apply_broken w.weather s.db (claim_in chars w r) h)

  transact-none : (db : Db) (c : Claim) → transact db c [] ≡ (ok none, db)
  unfolding transact
  transact-none db c = refl

  -- the transaction on a row that was pending
  transact_pending :
      (w : World) (s : State) (r : Request) (row : Row)
      → transact s.db (claim_in chars w r) (decide_row (claim_in chars w r) row ∷ [])
        ≡ (ok (some (decide_row (claim_in chars w r) row)), (decided_state chars w s r row).db)
  unfolding transact decide_row audit_payloads
  transact_pending w s r row = rw (audit_action-status_of r.verb, transact)

  apply_fine :
      (weather : Weather) (db : Db) (c : Claim) (rows : List Row)
      → weather ≡ fine
      → returned c db.queue ≡ rows
      → apply_decision weather db c ≡ transact db c rows
  unfolding apply_decision
  apply_fine fine db c rows e h = rw h
  apply_fine unreachable db c rows e h = cc
  apply_fine fails db c rows e h = cc

  handle_fine :
      (w : World) (s : State) (r : Request) (found : Option Row)
      → w.weather ≡ fine
      → returned (claim_in chars w r) s.db.queue ≡ returned_of (claim_in chars w r) found
      → handle chars w s r ≡ answer chars w s r found
  unfolding handle decide finish decide_row
  handle_fine w s r none e h =
      rw (apply_fine w.weather s.db (claim_in chars w r) [] e h, transact-none s.db)
  handle_fine w s r (some row) e h = elim (Bool-cases (is_pending row.status)) [
    | inl pending ↦
        rw (
          apply_fine w.weather s.db (claim_in chars w r) _ e h,
          pending,
          transact_pending w s r row,
        )
    | inr decided ↦
        rw (apply_fine w.weather s.db (claim_in chars w r) _ e h, decided, transact-none s.db)
  ]

  -- A request of a reviewer is answered from the row that has its id. While the database works: a
  -- pending row is decided, with one entry in the audit log and one body posted to the webhook,
  -- and the notice says what was decided and whether the webhook took it; a row that is decided
  -- already, or is missing, leaves everything as it was. If the database is unreachable or fails,
  -- nothing is changed and nothing is posted.
  pub handle-answer :
      (w : World) (s : State) (r : Request)
      → UniqueIds s.db.queue
      → handle chars w s r ≡ answer_in w.weather (answer chars w s r (get_item s.db.queue r.id)) s
  handle-answer w s r u = by_weather w.weather refl
    where
      by_weather :
          (weather : Weather)
          → w.weather ≡ weather
          → handle chars w s r ≡ answer_in weather (answer chars w s r (get_item s.db.queue r.id)) s
      by_weather fine e =
          handle_fine w s r (get_item s.db.queue r.id) e
            (returned_lem (claim_in chars w r) s.db.queue u)
      by_weather unreachable e = finish_broken w s r λ f. ground arith
      by_weather fails e = finish_broken w s r λ f. ground arith
