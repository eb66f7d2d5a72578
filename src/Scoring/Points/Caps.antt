-- ===== src/Scoring/Points/Caps.antt =====
-- The caps on the points.
use mathlib.Core.Path.{refl}
use n8n_production_systems.Scoring.{ScoreInput, ScoringConfig}
use n8n_production_systems.Scoring.Points.{
  llm_score_cap, cap_ai_component, intent_result, is_failed, ai_points,
}
use n8n_production_systems.Common.{
  ℤ, List, ◌≤ℤ◌, min_ℤ_right, arith, true, pos, Bool-cases, ◌≡◌, inl, inr,
}
use n8n_production_systems.Text.{CharDb, Text, is_empty, or_empty}
use n8n_production_systems.Text.Strip.{strip}

cap_ai_within : (points max : ℤ) → cap_ai_component points max ≤ℤ llm_score_cap
unfolding cap_ai_component
cap_ai_within points max = min_ℤ_right _ llm_score_cap

-- The model's part is at most 20 points, whatever the configuration says.
pub ai_points-cap :
    (chars : CharDb) (inp : ScoreInput) (config : ScoringConfig) (reasons : List Text)
    → (ai_points chars inp config reasons).0 ≤ℤ llm_score_cap
unfolding ai_points intent_result
ai_points-cap chars inp config reasons = elim (Bool-cases (is_failed chars inp.llm_status)) [
  | inl failed ↦ rw failed (omega arith)
  | inr done ↦ elim (Bool-cases (is_empty (strip chars (or_empty inp.intent)))) [
    | inl missing ↦ rw (done, missing) (omega arith)
    | inr given ↦ rw (done, given) (cap_ai_within _ _)
  ]
]

-- Without a model's answer, or with one that has no intent, the model's part is 0.
pub ai_points-failed :
    (chars : CharDb) (inp : ScoreInput) (config : ScoringConfig) (reasons : List Text)
    → is_failed chars inp.llm_status ≡ true
    → (ai_points chars inp config reasons).0 ≡ pos 0
unfolding ai_points
ai_points-failed chars inp config reasons h = rw h refl
