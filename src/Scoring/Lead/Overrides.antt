-- ===== src/Scoring/Lead/Overrides.antt =====
-- What the overrides leave of the score and of the route.
use mathlib.Core.Path.{refl}
use mathlib.Core.List.{Memᴰ}
use mathlib.Core.List.Memᴰ
use n8n_production_systems.Scoring.{ScoreInput, ScoringConfig, RouteItem, Override}
use n8n_production_systems.Scoring.Lead.{
  Ruling, matches, apply_cap_score, apply_route, apply_cap_route, apply_override, apply_overrides,
  base_total, first_ruling, score_lead,
}
use n8n_production_systems.Text.{Text, CharDb}
use n8n_production_systems.Common.{
  Option, ℤ, ◌&&◌, List, ◌≤ℤ◌, ◌≡◌, arith, some, ◌++◌, Bool-cases, min_ℤ_right, ◌∷◌, false, inl,
  true, none, ltb_ℤ, ◌∙◌, inr, [],
}

-- The override applies to the input.
abbrev pub Applies : ScoreInput → Override → Type 0
Applies inp o = (o.when_mapping && matches o.when inp) ≡ true

apply_cap_score_total :
    (routes : List RouteItem) (r : Ruling) (limit : Option ℤ)
    → (apply_cap_score routes r limit).total ≤ℤ r.total
unfolding apply_cap_score
apply_cap_score_total routes r none = omega arith
apply_cap_score_total routes r (some limit) = elim (Bool-cases (ltb_ℤ limit r.total)) [
  | inl over ↦ rw over (ground (arith, over))
  | inr under ↦ rw under (omega arith)
]

apply_cap_score_cap :
    (routes : List RouteItem) (r : Ruling) (limit : ℤ)
    → (apply_cap_score routes r (some limit)).total ≤ℤ limit
unfolding apply_cap_score
apply_cap_score_cap routes r limit = elim (Bool-cases (ltb_ℤ limit r.total)) [
  | inl over ↦ rw over (omega arith)
  | inr under ↦ rw under (ground (arith, under))
]

apply_route_total : (r : Ruling) (route : Option Text) → (apply_route r route).total ≡ r.total
unfolding apply_route
apply_route_total r none = refl
apply_route_total r (some route) = refl

apply_cap_route_total :
    (r : Ruling) (limit : Option Text) → (apply_cap_route r limit).total ≡ r.total
unfolding apply_cap_route
apply_cap_route_total r none = refl
apply_cap_route_total r (some limit) = refl

module _ (inp : ScoreInput) (routes : List RouteItem) where
  pub applied :
      (r : Ruling) (o : Override)
      → Applies inp o
      → apply_override inp routes r o
        ≡ apply_cap_route (apply_route (apply_cap_score routes r o.cap_score) o.route) o.cap_route
  unfolding apply_override
  applied r o h = rw h refl

  pub skipped :
      (r : Ruling) (o : Override)
      → (o.when_mapping && matches o.when inp) ≡ false
      → apply_override inp routes r o ≡ r
  unfolding apply_override
  skipped r o h = rw h refl

  applied_total :
      (r : Ruling) (o : Override)
      → Applies inp o
      → (apply_override inp routes r o).total ≡ (apply_cap_score routes r o.cap_score).total
  applied_total r o h =
      rw (applied r o h) (apply_cap_route_total _ o.cap_route ∙ apply_route_total _ o.route)

  apply_override_total :
      (r : Ruling) (o : Override) → (apply_override inp routes r o).total ≤ℤ r.total
  apply_override_total r o = elim (Bool-cases (o.when_mapping && matches o.when inp)) [
    | inl h ↦ rw (applied_total r o h) (apply_cap_score_total routes r o.cap_score)
    | inr h ↦ rw (skipped r o h) (omega arith)
  ]

  apply_overrides_total :
      (r : Ruling) (os : List Override) → (apply_overrides inp routes r os).total ≤ℤ r.total
  unfolding apply_overrides
  apply_overrides_total r [] = omega arith
  apply_overrides_total r (o ∷ os) =
      omega
        (arith, apply_override_total r o, apply_overrides_total (apply_override inp routes r o) os)

  apply_overrides_cap :
      (r : Ruling) (os : List Override) (o : Override) (limit : ℤ)
      → Memᴰ o os
      → Applies inp o
      → o.cap_score ≡ some limit
      → (apply_overrides inp routes r os).total ≤ℤ limit
  unfolding apply_overrides
  apply_overrides_cap r [] o limit m h is = absurd (Memᴰ.not-nil m)
  apply_overrides_cap r (p ∷ os) o limit (Memᴰ.head e) h is =
      let after = apply_override inp routes r o in
      let capped : after.total ≤ℤ limit =
        rw (applied_total r o h, is) (apply_cap_score_cap routes r limit) in
      rw (← e) (omega (arith, capped, apply_overrides_total after os))
  apply_overrides_cap r (p ∷ os) o limit (Memᴰ.tail m) h is =
      apply_overrides_cap (apply_override inp routes r p) os o limit m h is

  pub apply_overrides_append :
      (r : Ruling) (os ps : List Override)
      → apply_overrides inp routes r (os ++ ps)
        ≡ apply_overrides inp routes (apply_overrides inp routes r os) ps
  unfolding apply_overrides
  apply_overrides_append r [] ps = refl
  apply_overrides_append r (o ∷ os) ps =
      apply_overrides_append (apply_override inp routes r o) os ps

-- The score of a lead is at most the configured maximum.
pub score_lead-max :
    (chars : CharDb) (inp : ScoreInput) (config : ScoringConfig)
    → (score_lead chars inp config).score ≤ℤ config.max_score
unfolding score_lead first_ruling base_total
score_lead-max chars inp config =
    let first = first_ruling chars inp config in
    let bounded : first.total ≤ℤ config.max_score = min_ℤ_right _ config.max_score in
    omega (arith, bounded, apply_overrides_total inp config.routes first config.overrides)

-- The score is at most the `cap_score` of each override that applies to the input.
pub score_lead-cap :
    (chars : CharDb) (inp : ScoreInput) (config : ScoringConfig) (o : Override) (limit : ℤ)
    → Memᴰ o config.overrides
    → Applies inp o
    → o.cap_score ≡ some limit
    → (score_lead chars inp config).score ≤ℤ limit
unfolding score_lead
score_lead-cap chars inp config o limit m h is =
    apply_overrides_cap inp config.routes (first_ruling chars inp config) config.overrides o limit m
      h is
