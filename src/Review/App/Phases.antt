-- ===== src/Review/App/Phases.antt =====
-- The life of one review as the caller sees it: a relation on phases, which the handlers refine, and
-- the decision that a request brings about.
use n8n_production_systems.Review.Decisions.{is_pending}
use n8n_production_systems.Review.Database.{Row, Weather, fine, unreachable, fails, get_item}
use n8n_production_systems.Review.Database.Claims.{
  UniqueIds, row_after, map_some, get_item-update_queue, row_after_decided, row_after_other,
  row_after_claimed, get_item-id,
}
use n8n_production_systems.Review.App.{State, World, Request, handle, run, Verb, status_of}
use n8n_production_systems.Review.App.Faults.{claim_in, answer, answer_in, handle-answer}
use n8n_production_systems.Review.App.Once.{Inv, handle-Inv, not_pending}
use n8n_production_systems.Text.{CharDb}
use n8n_production_systems.Common.{
  ℕ, List, [], ◌∷◌, ◌≡◌, refl, Option, none, some, String, Bool, true, false, if◌then◌else◌,
  Outcome, Bool-cases, inl, inr, ◌==◌, ==_iff, ◌⊎◌, arith, subst,
}

pub data Phase : Type 0 where
  missing waiting : Phase
  decided : Option String → Phase

abbrev pub phase_of_status : Option String → Phase
phase_of_status status = if is_pending status then waiting else decided status

abbrev pub phase_of_row : Option Row → Phase
phase_of_row none = missing
phase_of_row (some r) = phase_of_status r.status

abbrev pub phase : State → ℕ → Phase
phase s id = phase_of_row (get_item s.db.queue id)

-- What may happen to a review: nothing, or the choice of a reviewer while it waits.
pub data Step : Phase → Phase → Type 0 where
  stay : (p : Phase) → Step p p
  choose : (v : Verb) → Step waiting (decided (some (status_of v)))

pub data Steps (p : Phase) : Phase → Type 0 where
  here : Steps p p
  next : {q r : Phase} → Steps p q → Step q r → Steps p r

module _ (chars : CharDb) where
  row-Step :
      (w : World) (r : Request) (o : Option Row) (id : ℕ)
      → ((row : Row) → o ≡ some row → row.id ≡ id)
      → Step (phase_of_row o) (phase_of_row (map_some (row_after (claim_in chars w r)) o))
  row-Step w r none id own = stay missing
  row-Step w r (some row) id own = elim (Bool-cases (is_pending row.status)) [
    | inl pending ↦ elim (Bool-cases (row.id == r.id)) [
      | inl same ↦
          let status : (row_after (claim_in chars w r) row).status ≡ some (status_of r.verb) =
            row_after_claimed (claim_in chars w r) row ((==_iff row.id r.id).0 same) pending in
          rw (status, pending, not_pending r.verb) (choose r.verb)
      | inr other ↦
          rw (row_after_other (claim_in chars w r) row (ground arith))
            (stay (phase_of_status row.status))
    ]
    | inr done ↦
        rw (row_after_decided (claim_in chars w r) row done) (stay (phase_of_status row.status))
  ]

  answer-Step :
      (w : World) (s : State) (r : Request) (o : Option Row) (id : ℕ)
      → Step (phase s id) (phase (answer chars w s r o).1 id)
  answer-Step w s r none id = stay (phase s id)
  answer-Step w s r (some found) id = elim (Bool-cases (is_pending found.status)) [
    | inl pending ↦
        rw (pending, get_item-update_queue (claim_in chars w r) s.db.queue id)
          (row-Step w r (get_item s.db.queue id) id (λ row h. get_item-id s.db.queue id row h))
    | inr done ↦ rw done (stay (phase s id))
  ]

  answer_in-Step :
      (weather : Weather) (a : Outcome String × State) (s : State) (id : ℕ)
      → Step (phase s id) (phase a.1 id)
      → Step (phase s id) (phase (answer_in weather a s).1 id)
  answer_in-Step fine a s id h = h
  answer_in-Step unreachable a s id h = stay (phase s id)
  answer_in-Step fails a s id h = stay (phase s id)

  handle-Step :
      (w : World) (s : State) (r : Request) (id : ℕ)
      → UniqueIds s.db.queue
      → Step (phase s id) (phase (handle chars w s r).1 id)
  handle-Step w s r id u =
      rw (handle-answer chars w s r u)
        (answer_in-Step w.weather _ s id (answer-Step w s r (get_item s.db.queue r.id) id))

  first-Step : {p q r : Phase} → Step p q → Steps q r → Steps p r
  first-Step s here = next here s
  first-Step s (next more last) = next (first-Step s more) last

  -- The handlers refine the life of a review: whatever requests come, in whatever order and with
  -- whatever failures, its phase goes on by steps of the relation alone.
  pub run-Steps :
      (s : State) (requests : List (World × Request)) (id : ℕ)
      → Inv s
      → Steps (phase s id) (phase (run chars s requests) id)
  unfolding run
  run-Steps s [] id v = here
  run-Steps s ((w, r) ∷ rest) id v =
      first-Step (handle-Step w s r id v.unique)
        (run-Steps (handle chars w s r).1 rest id (handle-Inv chars w s r v))

abbrev pub is_waiting : Phase → Bool
is_waiting missing = false
is_waiting waiting = true
is_waiting (decided status) = false

Step-is_waiting : {p q : Phase} → Step p q → is_waiting p ≡ false → is_waiting q ≡ false
Step-is_waiting (stay p) h = h
Step-is_waiting (choose v) h = refl

Steps-is_waiting : {p q : Phase} → Steps p q → is_waiting p ≡ false → is_waiting q ≡ false
Steps-is_waiting here h = h
Steps-is_waiting (next more last) h = Step-is_waiting last (Steps-is_waiting more h)

-- One of the requests is for the review, and the database works while it is handled.
abbrev pub Served : ℕ → List (World × Request) → Type 0
Served id [] = ⊥
Served id ((w, r) ∷ rest) = ((w.weather ≡ fine) × (r.id ≡ id)) ⊎ Served id rest

module _ (chars : CharDb) where
  answer_settles :
      (w : World) (s : State) (r : Request) (o : Option Row)
      → get_item s.db.queue r.id ≡ o
      → is_waiting (phase (answer chars w s r o).1 r.id) ≡ false
  answer_settles w s r none h = rw h refl
  answer_settles w s r (some row) h = elim (Bool-cases (is_pending row.status)) [
    | inl pending ↦
        let status : (row_after (claim_in chars w r) row).status ≡ some (status_of r.verb) =
          row_after_claimed (claim_in chars w r) row (get_item-id s.db.queue r.id row h) pending in
        rw
          (
            pending,
            get_item-update_queue (claim_in chars w r) s.db.queue r.id,
            h,
            status,
            not_pending r.verb,
          )
          refl
    | inr done ↦ rw (done, h, done) refl
  ]

  handle_settles :
      (w : World) (s : State) (r : Request)
      → UniqueIds s.db.queue
      → w.weather ≡ fine
      → is_waiting (phase (handle chars w s r).1 r.id) ≡ false
  handle_settles w s r u e =
      rw (handle-answer chars w s r u, e) (answer_settles w s r (get_item s.db.queue r.id) refl)

  -- A review does not wait for ever: after any requests of which one is for it, and is handled while
  -- the database works, it no longer waits for a decision.
  pub run-is_waiting :
      (s : State) (requests : List (World × Request)) (id : ℕ)
      → Inv s
      → Served id requests
      → is_waiting (phase (run chars s requests) id) ≡ false
  unfolding run
  run-is_waiting s [] id v served = absurd served
  run-is_waiting s ((w, r) ∷ rest) id v (inl (works, same)) =
      Steps-is_waiting (run-Steps chars (handle chars w s r).1 rest id (handle-Inv chars w s r v)) (
        subst (λ i. is_waiting (phase (handle chars w s r).1 i) ≡ false) same
          (handle_settles w s r v.unique works))
  run-is_waiting s ((w, r) ∷ rest) id v (inr later) =
      run-is_waiting (handle chars w s r).1 rest id (handle-Inv chars w s r v) later
