-- ===== src/Review/Database/Pending.antt =====
-- The row count of a claim, and the pending list behind it.
use mathlib.Core.Path.{refl}
use n8n_production_systems.Review.Decisions.{is_pending, rowcount_for_claim}
use n8n_production_systems.Review.Database.{
  Row, Claim, claimable, decide_row, update_queue, returned, get_item, pending_rows,
}
use n8n_production_systems.Review.Database.Claims.{UniqueIds, returned_of, returned_lem}
use n8n_production_systems.Common.{
  Option, List, ℕ, length, some, String, ◌∷◌, ◌≡◌, none, if◌then◌else◌, ◌==◌, false, [], Bool-cases,
  inl, inr, ap, arith,
}

-- the status of a row, or none if it is missing
abbrev pub status_at : Option Row → Option String
status_at none = none
status_at (some r) = r.status

returned_of-rowcount :
    (c : Claim) (o : Option Row) → length (returned_of c o) ≡ rowcount_for_claim (status_at o)
unfolding is_pending rowcount_for_claim
returned_of-rowcount c none = refl
returned_of-rowcount c (some r) = ground arith

-- Where the ids are unique, a claim returns as many rows as `rowcount_for_claim` says of the status of
-- the row that has its id: one if it is pending, none if it is decided or missing.
pub returned-rowcount :
    (c : Claim) (rs : List Row)
    → UniqueIds rs
    → length (returned c rs) ≡ rowcount_for_claim (status_at (get_item rs c.id))
returned-rowcount c rs u = rw (returned_lem c rs u) (returned_of-rowcount c (get_item rs c.id))

-- the rows of other ids
abbrev pub without : ℕ → List Row → List Row
without id [] = []
without id (r ∷ rs) = if r.id == id then without id rs else r ∷ without id rs

-- A decision takes the rows with its id off the pending list, and leaves the other rows of it as they
-- were and in their order, if its status is not `pending`.
pub pending_rows-update_queue :
    (c : Claim) (rs : List Row)
    → is_pending (some c.status) ≡ false
    → pending_rows (update_queue c rs) ≡ without c.id (pending_rows rs)
unfolding pending_rows update_queue claimable decide_row
pending_rows-update_queue c [] h = refl
pending_rows-update_queue c (r ∷ rs) h =
    let rest = pending_rows-update_queue c rs h in
    elim (Bool-cases (is_pending r.status)) [
      | inl waits ↦ elim (Bool-cases (r.id == c.id)) [
        | inl same ↦ rw (same, waits, same, h) rest
        | inr other ↦ rw (other, waits, other) (ap (λ q. r ∷ q) rest)
      ]
      | inr done ↦ elim (Bool-cases (r.id == c.id)) [
        | inl same ↦ rw (same, done, done) rest
        | inr other ↦ rw (other, done) rest
      ]
    ]
