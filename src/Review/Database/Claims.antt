-- ===== src/Review/Database/Claims.antt =====
-- What a claim does to the queue, row by row.
use n8n_production_systems.Review.Decisions.{is_pending}
use n8n_production_systems.Review.Database.{
  Row, Claim, claimable, decide_row, update_queue, returned, get_item,
}
use n8n_production_systems.Common.{
  List, if◌then◌else◌, Option, ◌≡◌, ℕ, some, All, [], arith, ◌∷◌, ◌≢◌, none, Bool-cases, refl, ◌==◌,
  inl, ==_iff, inr, true, false,
}

-- `id` is the primary key
abbrev pub UniqueIds : List Row → Type 0
UniqueIds [] = Unit
UniqueIds (r ∷ rs) = All (λ q. q.id ≢ r.id) rs × UniqueIds rs

-- the row, decided if the claim takes it
abbrev pub row_after : Claim → Row → Row
row_after c r = if claimable c r then decide_row c r else r

abbrev pub map_some : (Row → Row) → Option Row → Option Row
map_some f none = none
map_some f (some r) = some (f r)

row_after-id : (c : Claim) (r : Row) → (row_after c r).id ≡ r.id
unfolding decide_row claimable
row_after-id c r = ground arith

-- Every row is still there, and only the claimed one is changed.
pub get_item-update_queue :
    (c : Claim) (rs : List Row) (id : ℕ)
    → get_item (update_queue c rs) id ≡ map_some (row_after c) (get_item rs id)
unfolding get_item update_queue
get_item-update_queue c [] id = refl
get_item-update_queue c (r ∷ rs) id =
    rw (row_after-id c r) (ground (arith, get_item-update_queue c rs id))

absent : (c : Claim) (rs : List Row) → All (λ q. q.id ≢ c.id) rs → returned c rs ≡ []
unfolding returned
absent c [] h = refl
absent c (r ∷ rs) h = ground (arith, absent c rs h.1)

-- what the claim returns, by the row that has its id
abbrev pub returned_of : Claim → Option Row → List Row
returned_of c none = []
returned_of c (some r) = if is_pending r.status then decide_row c r ∷ [] else []

pub returned_lem :
    (c : Claim) (rs : List Row) → UniqueIds rs → returned c rs ≡ returned_of c (get_item rs c.id)
unfolding returned get_item
returned_lem c [] u = refl
returned_lem c (r ∷ rs) u = elim (Bool-cases (r.id == c.id)) [
  | inl same ↦
      let e : r.id ≡ c.id = (==_iff r.id c.id).0 same in
      rw same (ground (arith, absent c rs (rw e at u.0)))
  | inr other ↦ rw other (returned_lem c rs u.1)
]

All-update_queue :
    (c : Claim) (k : ℕ) (rs : List Row)
    → All (λ q. q.id ≢ k) rs
    → All (λ q. q.id ≢ k) (update_queue c rs)
unfolding update_queue
All-update_queue c k [] h = tt
All-update_queue c k (r ∷ rs) h = (rw (row_after-id c r) h.0, All-update_queue c k rs h.1)

pub update_queue-UniqueIds :
    (c : Claim) (rs : List Row) → UniqueIds rs → UniqueIds (update_queue c rs)
unfolding update_queue
update_queue-UniqueIds c [] u = tt
update_queue-UniqueIds c (r ∷ rs) u =
    (rw (row_after-id c r) (All-update_queue c r.id rs u.0), update_queue-UniqueIds c rs u.1)

pub get_item-id : (rs : List Row) (id : ℕ) (r : Row) → get_item rs id ≡ some r → r.id ≡ id
unfolding get_item
get_item-id [] id r h = cc
get_item-id (q ∷ rs) id r h = ground (arith, get_item-id rs id r)

-- A row that is not pending is not changed by any claim.
pub row_after_decided : (c : Claim) (r : Row) → is_pending r.status ≡ false → row_after c r ≡ r
unfolding claimable
row_after_decided c r h = rw h (ground arith)

-- nor is a row with another id
pub row_after_other : (c : Claim) (r : Row) → r.id ≢ c.id → row_after c r ≡ r
unfolding claimable
row_after_other c r h = ground arith

-- a pending row with the claim's id takes its status
pub row_after_claimed :
    (c : Claim) (r : Row)
    → r.id ≡ c.id
    → is_pending r.status ≡ true
    → (row_after c r).status ≡ some c.status
unfolding claimable decide_row
row_after_claimed c r e h = ground arith
