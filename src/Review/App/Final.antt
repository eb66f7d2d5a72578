-- ===== src/Review/App/Final.antt =====
-- The first decision of a review stands.
use n8n_production_systems.Review.Decisions.{is_pending}
use n8n_production_systems.Review.Database.{Row, Weather, fine, unreachable, fails, get_item}
use n8n_production_systems.Review.Database.Claims.{
  UniqueIds, row_after, map_some, get_item-update_queue, row_after_decided, row_after_claimed,
  get_item-id,
}
use n8n_production_systems.Review.App.{State, World, Request, handle, run, status_of, notice_of}
use n8n_production_systems.Review.App.Faults.{
  claim_in, decided_state, answer, answer_in, handle-answer,
}
use n8n_production_systems.Review.App.Once.{Inv, handle-Inv, not_pending}
use n8n_production_systems.Text.{CharDb}
use n8n_production_systems.Common.{
  ℕ, List, ◌≡◌, some, false, true, Outcome, ok, Option, ◌∙◌, String, Bool-cases, inl, ap, inr, refl,
  none, ◌∷◌, [],
}

-- the queue after an answer still has a decided row
Keeps : ℕ → Row → State → Type 0
Keeps id row s = get_item s.db.queue id ≡ some row

module _ (chars : CharDb) (id : ℕ) (row : Row) (decided : is_pending row.status ≡ false) where
  answer-Keeps :
      (w : World) (s : State) (r : Request) (o : Option Row)
      → Keeps id row s
      → Keeps id row (answer chars w s r o).1
  unfolding Keeps
  answer-Keeps w s r none k = k
  answer-Keeps w s r (some found) k = elim (Bool-cases (is_pending found.status)) [
    | inl pending ↦ rw pending (
        get_item-update_queue (claim_in chars w r) s.db.queue id
        ∙ ap (map_some (row_after (claim_in chars w r))) k
        ∙ ap some (row_after_decided (claim_in chars w r) row decided))
    | inr other ↦ rw other k
  ]

  answer_in-Keeps :
      (weather : Weather) (a : Outcome String × State) (s : State)
      → Keeps id row a.1
      → Keeps id row s
      → Keeps id row (answer_in weather a s).1
  answer_in-Keeps fine a s ka ks = ka
  answer_in-Keeps unreachable a s ka ks = ks
  answer_in-Keeps fails a s ka ks = ks

  handle-Keeps :
      (w : World) (s : State) (r : Request)
      → UniqueIds s.db.queue
      → Keeps id row s
      → Keeps id row (handle chars w s r).1
  handle-Keeps w s r u k =
      rw (handle-answer chars w s r u)
        (answer_in-Keeps w.weather _ s (answer-Keeps w s r (get_item s.db.queue r.id) k) k)

  run-Keeps :
      (s : State) (requests : List (World × Request))
      → Inv s
      → Keeps id row s
      → Keeps id row (run chars s requests)
  unfolding run
  run-Keeps s [] v k = k
  run-Keeps s ((w, r) ∷ rest) v k =
      run-Keeps (handle chars w s r).1 rest (handle-Inv chars w s r v)
        (handle-Keeps w s r v.unique k)

module _ (chars : CharDb) where
  -- A row of the queue that is no longer pending is the same row after any requests.
  pub run-decided :
      (s : State) (requests : List (World × Request)) (id : ℕ) (row : Row)
      → Inv s
      → get_item s.db.queue id ≡ some row
      → is_pending row.status ≡ false
      → get_item (run chars s requests).db.queue id ≡ some row
  unfolding Keeps
  run-decided s requests id row v e decided = run-Keeps chars id row decided s requests v e

  handle_decides :
      (w : World) (s : State) (r : Request) (row : Row)
      → UniqueIds s.db.queue
      → w.weather ≡ fine
      → get_item s.db.queue r.id ≡ some row
      → is_pending row.status ≡ true
      → handle chars w s r
        ≡ (ok (notice_of w.receiver_ok (status_of r.verb)), decided_state chars w s r row)
  handle_decides w s r row u e found pending =
      handle-answer chars w s r u ∙ (rw (found, e, pending))

  handle_refuses :
      (w : World) (s : State) (r : Request) (row : Row)
      → UniqueIds s.db.queue
      → w.weather ≡ fine
      → get_item s.db.queue r.id ≡ some row
      → is_pending row.status ≡ false
      → handle chars w s r ≡ (ok "already_decided", s)
  handle_refuses w s r row u e found decided =
      handle-answer chars w s r u ∙ (rw (found, e, decided))

  -- Of two requests for one pending review, with the database at work, the first decides it and
  -- the second is told `already_decided` and changes nothing.
  pub first_decision_stands :
      (w w' : World) (s : State) (r r' : Request) (row : Row)
      → Inv s
      → w.weather ≡ fine
      → w'.weather ≡ fine
      → get_item s.db.queue r.id ≡ some row
      → is_pending row.status ≡ true
      → r'.id ≡ r.id
      → let s' = (handle chars w s r).1 in
        ((handle chars w s r).0 ≡ ok (notice_of w.receiver_ok (status_of r.verb)))
        × (handle chars w' s' r' ≡ (ok "already_decided", s'))
  first_decision_stands w w' s r r' row v e e' found pending same =
      let first = handle_decides w s r row v.unique e found pending in
      let c = claim_in chars w r in
      let next = decided_state chars w s r row in
      let there : get_item next.db.queue r'.id ≡ some (row_after c row) =
        rw same (get_item-update_queue c s.db.queue r.id ∙ ap (map_some (row_after c)) found) in
      let closed : is_pending (row_after c row).status ≡ false =
        rw (row_after_claimed c row (get_item-id s.db.queue r.id row found) pending)
          (not_pending r.verb) in
      let v' : Inv next = rw first at (handle-Inv chars w s r v) in
      rw first (refl, handle_refuses w' next r' (row_after c row) v'.unique e' there closed)
