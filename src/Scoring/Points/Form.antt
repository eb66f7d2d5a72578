-- ===== src/Scoring/Points/Form.antt =====
-- The components that read the form alone.
use mathlib.Core.Path.{refl}
use n8n_production_systems.Scoring.{
  ScoreInput, ScoringConfig, BandComponent, attribute, as_text, scalar_of,
}
use n8n_production_systems.Scoring.Points.{
  capped_band, company_size_points, industry_points, budget_points, urgency_points, ai_points,
  timeline_or_hint, stripped, is_unknown, cap_component, band_points,
}
use n8n_production_systems.Text.{Text, CharDb, codes, text_eq, is_empty}
use n8n_production_systems.Common.{
  get_or, List, String, some, none, ◌∙◌, sym, false, ◌≡◌, pos, Option, ap,
}
use n8n_production_systems.Text.Strip.{strip}

-- the same lead with a failed call of the model, and nothing that the model said
abbrev pub when_failed : ScoreInput → ScoreInput
when_failed inp = record inp {
  llm_status = some (codes "failed");
  intent = none;
  urgency_hint = none;
}

-- `form_field` names the field that the form has for the component
abbrev pub ReadsForm : BandComponent → String → Type 0
ReadsForm component field = get_or component.form_field (codes field) ≡ codes field

module _ (chars : CharDb) (inp : ScoreInput) (config : ScoringConfig) (r t : List Text) where
  pub company_size-failed :
      (company_size_points chars inp config r).0
      ≡ (company_size_points chars (when_failed inp) config t).0
  unfolding company_size_points capped_band
  company_size-failed = refl

  pub industry-failed :
      (industry_points chars inp config r).0 ≡ (industry_points chars (when_failed inp) config t).0
  unfolding industry_points
  industry-failed = refl

  pub budget-failed :
      ReadsForm config.components.budget "budget_range"
      → (budget_points chars inp config r).0 ≡ (budget_points chars (when_failed inp) config t).0
  unfolding budget_points capped_band attribute text_eq
  budget-failed h = rw h refl

  -- a timeline that the form names is the one that is used
  timeline_named :
      (who : ScoreInput) (component : BandComponent) (timeline : Option Text) (reasons : List Text)
      → is_unknown chars timeline ≡ false
      → (timeline_or_hint chars who component timeline reasons).0 ≡ timeline
  unfolding timeline_or_hint
  timeline_named who component timeline reasons h = rw h refl

  pub urgency-failed :
      (timeline : Text)
      → ReadsForm config.components.urgency "timeline"
      → inp.timeline ≡ some timeline
      → is_empty (strip chars timeline) ≡ false
      → text_eq (strip chars timeline) (codes "unknown") ≡ false
      → (urgency_points chars inp config r).0 ≡ (urgency_points chars (when_failed inp) config t).0
  unfolding urgency_points capped_band attribute text_eq stripped is_unknown
  urgency-failed timeline h given full known =
      let component = config.components.urgency in
      let read = stripped chars (as_text (scalar_of inp.timeline)) in
      let named : is_unknown chars read ≡ false = rw (given, full) known in
      rw h (
        ap (λ k. cap_component (band_points chars component.bands k).0 component.max)
          (timeline_named inp component read r named
            ∙ sym (timeline_named (when_failed inp) component read t named)))

  pub ai-failed : (ai_points chars (when_failed inp) config t).0 ≡ pos 0
  unfolding ai_points text_eq
  ai-failed = refl
