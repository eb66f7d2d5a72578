-- ===== src/Review/App/Once.antt =====
-- A review is decided once, is logged once and is posted once, whatever the requests.
use n8n_production_systems.Review.Decisions.{DecisionBody, is_pending}
use n8n_production_systems.Review.Database.{
  Row, Audit, Claim, Weather, fine, unreachable, fails, update_queue, get_item,
}
use n8n_production_systems.Review.Database.Claims.{
  UniqueIds, row_after, map_some, get_item-update_queue, update_queue-UniqueIds, row_after_other,
  row_after_claimed, row_after_decided, get_item-id,
}
use n8n_production_systems.Review.App.{
  State, World, Request, handle, run, Verb, body_of, status_of, approve, reject,
}
use n8n_production_systems.Review.App.Faults.{
  claim_in, entry_of, decided_state, answer, answer_in, handle-answer,
}
use n8n_production_systems.Text.{CharDb}
use n8n_production_systems.Common.{
  Option, ℕ, ◌≡◌, Bool, ◌≤◌, List, some, true, ◌++◌, false, ◌∷◌, if◌then◌else◌, none, [], ◌+◌, ◌==◌,
  arith, Outcome, ◌≢◌, Bool-cases, String, inl, refl, ==_iff, inr, ◌∙◌, sym, ap,
}

-- how often the log speaks of a review, and how often it was posted
abbrev pub logged : ℕ → List Audit → ℕ
logged id [] = 0
logged id (a ∷ as_) = (if a.subject_id == id then 1 else 0) + logged id as_

abbrev pub sent : ℕ → List DecisionBody → ℕ
sent id [] = 0
sent id (b ∷ bs) = (if b.id == id then 1 else 0) + sent id bs

logged-append :
    (id : ℕ) (xs : List Audit) (a : Audit)
    → logged id (xs ++ a ∷ []) ≡ logged id xs + (if a.subject_id == id then 1 else 0)
logged-append id [] a = ground arith
logged-append id (x ∷ xs) a = ground (arith, logged-append id xs a)

sent-append :
    (id : ℕ) (xs : List DecisionBody) (b : DecisionBody)
    → sent id (xs ++ b ∷ []) ≡ sent id xs + (if b.id == id then 1 else 0)
sent-append id [] b = ground arith
sent-append id (x ∷ xs) b = ground (arith, sent-append id xs b)

-- the row is in the queue, and waits
abbrev pub waits : Option Row → Bool
waits none = false
waits (some r) = is_pending r.status

-- The ids are unique, and each review was logged as often as it was posted, at most once, and not
-- at all while it waits.
pub record Inv (s : State) : Type 0 where
  pub unique : UniqueIds s.db.queue
  pub once : (id : ℕ) → logged id s.db.audit ≤ 1
  pub together : (id : ℕ) → sent id s.posted ≡ logged id s.db.audit
  pub untouched : (id : ℕ) → waits (get_item s.db.queue id) ≡ true → logged id s.db.audit ≡ 0

pub not_pending : (v : Verb) → is_pending (some (status_of v)) ≡ false
unfolding is_pending
not_pending approve = refl
not_pending reject = refl

-- after a claim with a decided status, no row with its id waits
waits-claimed :
    (c : Claim) (o : Option Row)
    → is_pending (some c.status) ≡ false
    → ((r : Row) → o ≡ some r → r.id ≡ c.id)
    → waits (map_some (row_after c) o) ≡ false
waits-claimed c none h e = refl
waits-claimed c (some r) h e = elim (Bool-cases (is_pending r.status)) [
  | inl pending ↦ rw (row_after_claimed c r (e r refl) pending) h
  | inr decided ↦ rw (row_after_decided c r decided) decided
]

waits-other :
    (c : Claim) (o : Option Row)
    → ((r : Row) → o ≡ some r → r.id ≢ c.id)
    → waits (map_some (row_after c) o) ≡ waits o
waits-other c none e = refl
waits-other c (some r) e = rw (row_after_other c r (e r refl))

module _ (chars : CharDb) where
  still_waits :
      (w : World) (s : State) (r : Request) (id : ℕ)
      → waits (get_item (update_queue (claim_in chars w r) s.db.queue) id) ≡ true
      → (id ≢ r.id) × (waits (get_item s.db.queue id) ≡ true)
  still_waits w s r id h =
      let c = claim_in chars w r in
      let after = get_item-update_queue c s.db.queue id in
      elim (Bool-cases (id == r.id)) [
        | inl same ↦
            let e : id ≡ r.id = (==_iff id r.id).0 same in
            absurd (
              ground (
                arith,
                h,
                after,
                waits-claimed c (get_item s.db.queue id) (not_pending r.verb)
                    λ q f. get_item-id s.db.queue id q f ∙ e,
              ))
        | inr other ↦
            let ne : id ≢ r.id = ground arith in
            (
              ne,
              sym (
                    waits-other c (get_item s.db.queue id)
                      λ q f g. ne (sym (get_item-id s.db.queue id q f) ∙ g))
                  ∙ ap waits (sym after)
                  ∙ h,
            )
      ]

  decided_state-Inv :
      (w : World) (s : State) (r : Request) (row : Row)
      → Inv s
      → get_item s.db.queue r.id ≡ some row
      → is_pending row.status ≡ true
      → Inv (decided_state chars w s r row)
  decided_state-Inv w s r row v e pending =
      let zero_before : logged r.id s.db.audit ≡ 0 = v.untouched r.id (rw e pending) in
      let entry = entry_of chars w r row in
      record {
        unique = update_queue-UniqueIds (claim_in chars w r) s.db.queue v.unique;
        once = λ id. ground (arith, logged-append id s.db.audit entry, v.once id, zero_before);
        together = λ id. ground (
          arith,
          logged-append id s.db.audit entry,
          sent-append id s.posted (body_of (claim_in chars w r) row),
          v.together id,
        );
        untouched = λ id h.
            let (ne, before) = still_waits w s r id h in
            ground (arith, ne, logged-append id s.db.audit entry, v.untouched id before);
      }

  answer-Inv :
      (w : World) (s : State) (r : Request) (o : Option Row)
      → Inv s
      → get_item s.db.queue r.id ≡ o
      → Inv (answer chars w s r o).1
  answer-Inv w s r none v e = v
  answer-Inv w s r (some row) v e = elim (Bool-cases (is_pending row.status)) [
    | inl pending ↦ rw pending (decided_state-Inv w s r row v e pending)
    | inr decided ↦ rw decided v
  ]

  answer_in-Inv :
      (weather : Weather) (a : Outcome String × State) (s : State)
      → Inv a.1
      → Inv s
      → Inv (answer_in weather a s).1
  answer_in-Inv fine a s va vs = va
  answer_in-Inv unreachable a s va vs = vs
  answer_in-Inv fails a s va vs = vs

  pub handle-Inv : (w : World) (s : State) (r : Request) → Inv s → Inv (handle chars w s r).1
  handle-Inv w s r v =
      rw (handle-answer chars w s r v.unique)
        (answer_in-Inv w.weather _ s (answer-Inv w s r (get_item s.db.queue r.id) v refl) v)

  -- Whatever requests come, in whatever order and with whatever failures: from a state in which it
  -- holds, it goes on to hold that every review is in the audit log at most once, was posted as
  -- often as it is in the log, and is not there while it waits.
  pub run-Inv : (s : State) (requests : List (World × Request)) → Inv s → Inv (run chars s requests)
  unfolding run
  run-Inv s [] v = v
  run-Inv s ((w, r) ∷ rest) v = run-Inv (handle chars w s r).1 rest (handle-Inv w s r v)
