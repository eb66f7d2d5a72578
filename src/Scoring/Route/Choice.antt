-- ===== src/Scoring/Route/Choice.antt =====
-- The route is that of the largest minimum that the score reaches.
use mathlib.Core.Path.{refl}
use mathlib.Core.List.{Memᴰ}
use mathlib.Core.List.Memᴰ
use n8n_production_systems.Scoring.{RouteItem}
use n8n_production_systems.Scoring.Route.{insert_route, sort_routes, first_route, route_from_score}
use n8n_production_systems.Text.{codes}
use n8n_production_systems.Common.{
  All, ℤ, List, ◌≡◌, ltb_ℤ, ◌∷◌, ◌≤ℤ◌, Bool-cases, arith, [], ◌⊎◌, Bool, true, if◌then◌else◌, inl,
  inr, false,
}

-- the minimums do not grow along the list
Sorted : List RouteItem → Type 0
Sorted [] = Unit
Sorted (x ∷ xs) = All (λ y. y.min ≤ℤ x.min) xs × Sorted xs

-- Item `x` gives the route of the score: no other item that the score reaches has a larger minimum.
pub record IsBest (score : ℤ) (routes : List RouteItem) (x : RouteItem) : Type 0 where
  pub listed : Memᴰ x routes
  pub reached : x.min ≤ℤ score
  pub largest : All (λ y. y.min ≤ℤ score → y.min ≤ℤ x.min) routes

abbrev pub Unreached : ℤ → List RouteItem → Type 0
Unreached score = All (λ y. ltb_ℤ score y.min ≡ true)

module _ (P : RouteItem → Type 0) where
  insert-All :
      (item : RouteItem) (xs : List RouteItem) → P item → All P xs → All P (insert_route item xs)
  unfolding insert_route
  insert-All item [] p h = (p, h)
  insert-All item (y ∷ ys) p h = elim (Bool-cases (ltb_ℤ item.min y.min)) [
    | inl later ↦ rw later (h.0, insert-All item ys p h.1)
    | inr now ↦ rw now (p, h)
  ]

  uninsert_at :
      (item y : RouteItem) (ys more : List RouteItem) (b : Bool)
      → (All P more → P item × All P ys)
      → All P (if b then y ∷ more else item ∷ y ∷ ys)
      → P item × All P (y ∷ ys)
  uninsert_at item y ys more true back h = let (p, q) = back h.1 in (p, (h.0, q))
  uninsert_at item y ys more false back h = h

  uninsert-All :
      (item : RouteItem) (xs : List RouteItem) → All P (insert_route item xs) → P item × All P xs
  unfolding insert_route
  uninsert-All item [] h = h
  uninsert-All item (y ∷ ys) h =
      uninsert_at item y ys (insert_route item ys) (ltb_ℤ item.min y.min) (uninsert-All item ys) h

  unsort-All : (xs : List RouteItem) → All P (sort_routes xs) → All P xs
  unfolding sort_routes
  unsort-All [] h = h
  unsort-All (x ∷ xs) h = let (p, q) = uninsert-All x (sort_routes xs) h in (p, unsort-All xs q)

module _ (x item y : RouteItem) (ys more : List RouteItem) where
  past : (Memᴰ x more → Memᴰ x (item ∷ ys)) → Memᴰ x (y ∷ more) → Memᴰ x (item ∷ y ∷ ys)
  past back (Memᴰ.head e) = Memᴰ.tail (Memᴰ.head e)
  past back (Memᴰ.tail m) = elim (Memᴰ.cases_cons (back m)) [
    | inl e ↦ Memᴰ.head e
    | inr k ↦ Memᴰ.tail (Memᴰ.tail k)
  ]

  in_insert_at :
      (b : Bool)
      → (Memᴰ x more → Memᴰ x (item ∷ ys))
      → Memᴰ x (if b then y ∷ more else item ∷ y ∷ ys)
      → Memᴰ x (item ∷ y ∷ ys)
  in_insert_at true back h = past back h
  in_insert_at false back h = h

in_insert :
    (x item : RouteItem) (xs : List RouteItem) → Memᴰ x (insert_route item xs) → Memᴰ x (item ∷ xs)
unfolding insert_route
in_insert x item [] h = h
in_insert x item (y ∷ ys) h =
    in_insert_at x item y ys (insert_route item ys) (ltb_ℤ item.min y.min) (in_insert x item ys) h

in_sort : (x : RouteItem) (xs : List RouteItem) → Memᴰ x (sort_routes xs) → Memᴰ x xs
unfolding sort_routes
in_sort x [] h = h
in_sort x (y ∷ ys) h = elim (Memᴰ.cases_cons (in_insert x y (sort_routes ys) h)) [
  | inl e ↦ Memᴰ.head e
  | inr k ↦ Memᴰ.tail (in_sort x ys k)
]

below :
    (a b : ℤ) (xs : List RouteItem) → a ≤ℤ b → All (λ y. y.min ≤ℤ a) xs → All (λ y. y.min ≤ℤ b) xs
below a b [] h k = k
below a b (x ∷ xs) h k = (omega (arith, h, k.0), below a b xs h k.1)

insert-Sorted : (item : RouteItem) (xs : List RouteItem) → Sorted xs → Sorted (insert_route item xs)
unfolding insert_route Sorted
insert-Sorted item [] h = (tt, tt)
insert-Sorted item (y ∷ ys) h = elim (Bool-cases (ltb_ℤ item.min y.min)) [
  | inl later ↦ rw later (
    insert-All (λ y'. y'.min ≤ℤ y.min) item ys (ground (arith, later)) h.0,
    insert-Sorted item ys h.1,
  )
  | inr now ↦
      let le : y.min ≤ℤ item.min = ground (arith, now) in
      rw now ((le, below y.min item.min ys le h.0), h)
]

sort_routes-Sorted : (xs : List RouteItem) → Sorted (sort_routes xs)
unfolding sort_routes Sorted
sort_routes-Sorted [] = tt
sort_routes-Sorted (x ∷ xs) = insert-Sorted x (sort_routes xs) (sort_routes-Sorted xs)

weaken :
    (score top : ℤ) (xs : List RouteItem)
    → All (λ y. y.min ≤ℤ top) xs
    → All (λ y. y.min ≤ℤ score → y.min ≤ℤ top) xs
weaken score top [] h = h
weaken score top (x ∷ xs) h = (λ k. h.0, weaken score top xs h.1)

first_route_lem :
    (score : ℤ) (xs : List RouteItem)
    → Sorted xs
    → ((x : RouteItem) × IsBest score xs x × (first_route score xs ≡ x.name))
      ⊎ (Unreached score xs × (first_route score xs ≡ codes "archive"))
unfolding first_route Sorted
first_route_lem score [] h = inr (tt, refl)
first_route_lem score (x ∷ xs) h = elim (Bool-cases (ltb_ℤ score x.min)) [
  | inr now ↦
      let le : x.min ≤ℤ score = ground (arith, now) in
      inl (
        x,
        record {
          listed = Memᴰ.head refl;
          reached = le;
          largest = (λ k. omega arith, weaken score x.min xs h.0);
        },
        rw now refl,
      )
  | inl later ↦ elim (first_route_lem score xs h.1) [
    | inl (y, best, name) ↦ inl (
      y,
      record {
        listed = Memᴰ.tail best.listed;
        reached = best.reached;
        largest = (λ k. absurd (ground (arith, later, k)), best.largest);
      },
      rw later name,
    )
    | inr (unreached, name) ↦ inr ((later, unreached), rw later name)
  ]
]

-- The route of a score is the name of one of the configured routes, whose minimum the score
-- reaches and which is the largest of those that it reaches, in whatever order the routes are
-- configured; or it is `archive`, and the score reaches none.
pub route_from_score_cases :
    (score : ℤ) (routes : List RouteItem)
    → ((x : RouteItem) × IsBest score routes x × (route_from_score score routes ≡ x.name))
      ⊎ (Unreached score routes × (route_from_score score routes ≡ codes "archive"))
unfolding route_from_score
route_from_score_cases score routes =
    elim (first_route_lem score (sort_routes routes) (sort_routes-Sorted routes)) [
      | inl (x, best, name) ↦ inl (
        x,
        record {
          listed = in_sort x routes best.listed;
          reached = best.reached;
          largest = unsort-All _ routes best.largest;
        },
        name,
      )
      | inr (unreached, name) ↦ inr (unsort-All _ routes unreached, name)
    ]
