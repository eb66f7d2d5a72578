-- ===== src/Scoring/Lead/Routing.antt =====
-- Which route a lead takes after the overrides.
use mathlib.Core.Path.{refl}
use n8n_production_systems.Scoring.{ScoreInput, ScoringConfig, RouteItem, Override}
use n8n_production_systems.Scoring.Route.{route_from_score, cap_route, ladder_index, pick_lower}
use n8n_production_systems.Scoring.Lead.{
  Ruling, matches, apply_cap_score, apply_route, apply_cap_route, apply_override, apply_overrides,
  first_ruling, score_lead,
}
use n8n_production_systems.Scoring.Lead.Overrides.{
  Applies, applied, skipped, apply_overrides_append,
}
use n8n_production_systems.Text.{Text, CharDb}
use n8n_production_systems.Common.{
  ℕ, ◌&&◌, List, inl, ◌≡◌, false, inr, some, true, ◌⊎◌, none, Bool-cases, All, ◌++◌, Option, ℤ, ◌∷◌,
  arith, [], Bool, ltb, leb,
}

-- A place on the ladder is not above another, or one of the two routes is not on the ladder.
abbrev pub not_above : Option ℕ → Option ℕ → Bool
not_above none p = true
not_above (some i) none = true
not_above (some i) (some j) = leb i j

-- The lower of two routes is not above the second.
pick_lower-not_above :
    (route top : Text) (o p : Option ℕ)
    → ladder_index route ≡ o
    → ladder_index top ≡ p
    → not_above (ladder_index (pick_lower route top o p)) p ≡ true
pick_lower-not_above route top none p is_o is_p = rw is_o refl
pick_lower-not_above route top (some n) none is_o is_p = rw is_o refl
pick_lower-not_above route top (some n) (some m) is_o is_p = elim (Bool-cases (ltb m n)) [
  | inl lower ↦ rw (lower, is_p) (ground arith)
  | inr stays ↦ rw (stays, is_o) (ground (arith, stays))
]

cap_route-not_above :
    (route top : Text) → not_above (ladder_index (cap_route route top)) (ladder_index top) ≡ true
unfolding cap_route
cap_route-not_above route top =
    pick_lower-not_above route top (ladder_index route) (ladder_index top) refl refl

-- An override that leaves the route alone: it sets none and caps none, or does not apply.
abbrev pub LeavesRoute : ScoreInput → Override → Type 0
LeavesRoute inp o =
    ((o.when_mapping && matches o.when inp) ≡ false) ⊎ ((o.route ≡ none) × (o.cap_route ≡ none))

module _ (inp : ScoreInput) (routes : List RouteItem) where
  -- the route is the one forced
  Forced : Text → Ruling → Type 0
  Forced route r = (r.forced_route ≡ true) × (r.route ≡ route)

  cap_score-Forced :
      (route : Text) (r : Ruling) (limit : Option ℤ)
      → Forced route r
      → Forced route (apply_cap_score routes r limit)
  unfolding Forced apply_cap_score
  cap_score-Forced route r none h = h
  cap_score-Forced route r (some limit) h = (h.0, rw h.0 h.1)

  apply_override-Forced :
      (route : Text) (r : Ruling) (o : Override)
      → LeavesRoute inp o
      → Forced route r
      → Forced route (apply_override inp routes r o)
  unfolding Forced apply_route apply_cap_route
  apply_override-Forced route r o (inl skip) h = rw (skipped inp routes r o skip) h
  apply_override-Forced route r o (inr (no_route, no_cap)) h =
      elim (Bool-cases (o.when_mapping && matches o.when inp)) [
        | inl on ↦
            rw (applied inp routes r o on, no_route, no_cap)
              (cap_score-Forced route r o.cap_score h)
        | inr off ↦ rw (skipped inp routes r o off) h
      ]

  apply_overrides-Forced :
      (route : Text) (r : Ruling) (os : List Override)
      → All (LeavesRoute inp) os
      → Forced route r
      → Forced route (apply_overrides inp routes r os)
  unfolding apply_overrides
  apply_overrides-Forced route r [] quiet h = h
  apply_overrides-Forced route r (o ∷ os) quiet h =
      apply_overrides-Forced route (apply_override inp routes r o) os quiet.1
        (apply_override-Forced route r o quiet.0 h)

  applied-Forced :
      (route : Text) (r : Ruling) (o : Override)
      → Applies inp o
      → o.route ≡ some route
      → o.cap_route ≡ none
      → Forced route (apply_override inp routes r o)
  unfolding Forced apply_route apply_cap_route
  applied-Forced route r o on is no_cap = rw (applied inp routes r o on, is, no_cap) (refl, refl)

  -- the route of a ruling that no override forces is that of its total
  Plain : Ruling → Type 0
  Plain r = (r.forced_route ≡ false) × (r.route ≡ route_from_score r.total routes)

  cap_score-Plain :
      (r : Ruling) (limit : Option ℤ) → Plain r → Plain (apply_cap_score routes r limit)
  unfolding Plain apply_cap_score
  cap_score-Plain r none h = h
  cap_score-Plain r (some limit) h = (h.0, rw h.0 refl)

  apply_override-Plain :
      (r : Ruling) (o : Override)
      → LeavesRoute inp o
      → Plain r
      → Plain (apply_override inp routes r o)
  unfolding apply_route apply_cap_route
  apply_override-Plain r o (inl skip) h = rw (skipped inp routes r o skip) h
  apply_override-Plain r o (inr (no_route, no_cap)) h =
      elim (Bool-cases (o.when_mapping && matches o.when inp)) [
        | inl on ↦
            rw (applied inp routes r o on, no_route, no_cap) (cap_score-Plain r o.cap_score h)
        | inr off ↦ rw (skipped inp routes r o off) h
      ]

  apply_overrides-Plain :
      (r : Ruling) (os : List Override)
      → All (LeavesRoute inp) os
      → Plain r
      → Plain (apply_overrides inp routes r os)
  unfolding apply_overrides
  apply_overrides-Plain r [] quiet h = h
  apply_overrides-Plain r (o ∷ os) quiet h =
      apply_overrides-Plain (apply_override inp routes r o) os quiet.1
        (apply_override-Plain r o quiet.0 h)

  applied-capped :
      (r : Ruling) (o : Override) (top : Text)
      → Applies inp o
      → o.cap_route ≡ some top
      → not_above (ladder_index (apply_override inp routes r o).route) (ladder_index top) ≡ true
  unfolding apply_cap_route
  applied-capped r o top on is =
      rw (applied inp routes r o on, is)
        (cap_route-not_above (apply_route (apply_cap_score routes r o.cap_score) o.route).route top)

  split-capped :
      (r : Ruling) (all os : List Override) (o : Override) (top : Text)
      → all ≡ os ++ o ∷ []
      → Applies inp o
      → o.cap_route ≡ some top
      → not_above (ladder_index (apply_overrides inp routes r all).route) (ladder_index top) ≡ true
  unfolding apply_overrides
  split-capped r all os o top split on is =
      rw (split, apply_overrides_append inp routes r os (o ∷ []))
        (applied-capped (apply_overrides inp routes r os) o top on is)

  split-Forced :
      (r : Ruling) (all os : List Override) (o : Override) (ps : List Override) (route : Text)
      → all ≡ os ++ o ∷ ps
      → Applies inp o
      → o.route ≡ some route
      → o.cap_route ≡ none
      → All (LeavesRoute inp) ps
      → (apply_overrides inp routes r all).route ≡ route
  unfolding Forced apply_overrides
  split-Forced r all os o ps route split on is no_cap quiet =
      let before = apply_overrides inp routes r os in
      let forced = applied-Forced route before o on is no_cap in
      rw (split, apply_overrides_append inp routes r os (o ∷ ps))
        (apply_overrides-Forced route (apply_override inp routes before o) ps quiet forced).1

-- An override that applies, sets the route and caps none decides the route, whatever the score and
-- the overrides before it, if those after it leave the route alone.
pub score_lead-forced :
    (chars : CharDb) (inp : ScoreInput) (config : ScoringConfig) (os : List Override) (o : Override)
    (ps : List Override) (route : Text)
    → config.overrides ≡ os ++ o ∷ ps
    → Applies inp o
    → o.route ≡ some route
    → o.cap_route ≡ none
    → All (LeavesRoute inp) ps
    → (score_lead chars inp config).route ≡ route
unfolding score_lead
score_lead-forced chars inp config os o ps route split on is no_cap quiet =
    split-Forced inp config.routes (first_ruling chars inp config) config.overrides os o ps route
      split on is no_cap quiet

-- If no override that applies sets or caps a route, the route of a lead is that of the score it
-- ends with, after every cap on the score.
pub score_lead-plain :
    (chars : CharDb) (inp : ScoreInput) (config : ScoringConfig)
    → All (LeavesRoute inp) config.overrides
    → (score_lead chars inp config).route
      ≡ route_from_score (score_lead chars inp config).score config.routes
unfolding score_lead Plain first_ruling
score_lead-plain chars inp config quiet =
    (apply_overrides-Plain inp config.routes (first_ruling chars inp config) config.overrides quiet
      (refl, refl)).1

-- If the last override applies and caps the route, the lead's route is not above the cap on the
-- ladder of archive, nurture and sales.
pub score_lead-capped :
    (chars : CharDb) (inp : ScoreInput) (config : ScoringConfig) (os : List Override) (o : Override)
    (top : Text)
    → config.overrides ≡ os ++ o ∷ []
    → Applies inp o
    → o.cap_route ≡ some top
    → not_above (ladder_index (score_lead chars inp config).route) (ladder_index top) ≡ true
unfolding score_lead
score_lead-capped chars inp config os o top split on is =
    split-capped inp config.routes (first_ruling chars inp config) config.overrides os o top split
      on is
