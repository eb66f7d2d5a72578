-- ===== src/Scoring/Lead/Llm.antt =====
-- What the model can change.
use n8n_production_systems.Scoring.{ScoreInput, ScoringConfig}
use n8n_production_systems.Scoring.Points.{llm_score_cap}
use n8n_production_systems.Scoring.Points.Caps.{ai_points-cap}
use n8n_production_systems.Scoring.Points.Form.{
  when_failed, ReadsForm, company_size-failed, industry-failed, budget-failed, urgency-failed,
  ai-failed,
}
use n8n_production_systems.Scoring.Lead.{Breakdown, sum, breakdown_of, base_total}
use n8n_production_systems.Text.{CharDb, Text, codes, text_eq, is_empty}
use n8n_production_systems.Text.Strip.{strip}
use n8n_production_systems.Common.{
  ℤ, ◌≤ℤ◌, min_ℤ, ◌+ℤ◌, pos, [], arith, ◌≡◌, min_ℤ_within, some, false,
}

sum_within :
    (b d : Breakdown) (limit max : ℤ)
    → b.company_size ≡ d.company_size
    → b.industry_fit ≡ d.industry_fit
    → b.budget ≡ d.budget
    → b.urgency ≡ d.urgency
    → d.ai_qualification ≡ pos 0
    → b.ai_qualification ≤ℤ limit
    → pos 0 ≤ℤ limit
    → min_ℤ (sum b) max ≤ℤ min_ℤ (sum d) max +ℤ limit
unfolding sum
sum_within b d limit max e1 e2 e3 e4 e5 h k =
    rw (e1, e2, e3, e4, e5)
      (min_ℤ_within (d.company_size +ℤ d.industry_fit +ℤ d.budget +ℤ d.urgency) b.ai_qualification
        limit max h k)

-- Before the overrides, what the model says of a lead whose form names a timeline other than `unknown`
-- is worth at most 20 points: the score exceeds by at most that the score of the same lead with a
-- failed call of the model, no intent and no hint of the urgency. The configuration reads the budget
-- and the timeline from the form's fields of those names.
pub base_total-failed :
    (chars : CharDb) (inp : ScoreInput) (config : ScoringConfig) (timeline : Text)
    → ReadsForm config.components.budget "budget_range"
    → ReadsForm config.components.urgency "timeline"
    → inp.timeline ≡ some timeline
    → is_empty (strip chars timeline) ≡ false
    → text_eq (strip chars timeline) (codes "unknown") ≡ false
    → base_total chars inp config ≤ℤ base_total chars (when_failed inp) config +ℤ llm_score_cap
unfolding base_total breakdown_of
base_total-failed chars inp config timeline budget urgency given full known =
    sum_within (breakdown_of chars inp config).0 (breakdown_of chars (when_failed inp) config).0
      llm_score_cap config.max_score (company_size-failed chars inp config _ _)
      (industry-failed chars inp config _ _) (budget-failed chars inp config _ _ budget)
      (urgency-failed chars inp config _ _ timeline urgency given full known)
      (ai-failed chars inp config [] _) (ai_points-cap chars inp config _) (omega arith)
