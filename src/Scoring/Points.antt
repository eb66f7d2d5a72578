-- ===== src/Scoring/Points.antt =====
-- The points of each component. A component appends its reason to the reasons so far.
pub mod Caps
pub mod Form
use n8n_production_systems.Scoring.{
  ScoreInput, ScoringConfig, BandComponent, IndustryComponent, AiComponent, attribute, as_text,
  show_int,
}
use n8n_production_systems.Text.{Text, CharDb, codes, or_empty, text_eq, is_empty}
use n8n_production_systems.Text.Strip.{strip}
use n8n_production_systems.Text.Equality.{text_key}
use n8n_production_systems.Dict.{get}
use n8n_production_systems.Common.{
  get_or, List, ℤ, String, Option, ◌++◌, some, Bool, if◌then◌else◌, min_ℤ, ◌∷◌, pos, ◌&&◌, none,
  map, [], false, true, not, ◌||◌,
}

abbrev pub llm_score_cap : ℤ
llm_score_cap = pos 20

abbrev urgency_hint_to_band : List (Text × Text)
urgency_hint_to_band =
    (codes "now", codes "now")
    ∷ (codes "soon", codes "1-3 months")
    ∷ (codes "later", codes "3-6 months")
    ∷ (codes "unknown", codes "unknown")
    ∷ []

abbrev unknown_band : List (Text × ℤ) → ℤ × Text
unknown_band bands = (get_or (get bands (codes "unknown")) (pos 0), codes "unknown")

abbrev known_band : List (Text × ℤ) → Text → Option ℤ → ℤ × Text
known_band bands normalized (some points) = (points, normalized)
known_band bands normalized none = unknown_band bands

-- `_cap_component`, for the components that are not the model's and for the one that is
unfoldable pub cap_component : ℤ → ℤ → ℤ
cap_component points max = min_ℤ points max

unfoldable pub cap_ai_component : ℤ → ℤ → ℤ
cap_ai_component points max = min_ℤ (min_ℤ points max) llm_score_cap

-- f"{name}={used} -> {points}"
abbrev arrow : String → Text → ℤ → Text
arrow label used points = codes label ++ used ++ codes " -> " ++ show_int points

abbrev member : Text → List Text → Bool
member s [] = false
member s (t ∷ ts) = text_eq s t || member s ts

module _ (chars : CharDb) where
  pub band_points : List (Text × ℤ) → Option Text → ℤ × Text
  band_points bands none = unknown_band bands
  band_points bands (some key) =
      let normalized = strip chars key in
      if is_empty normalized
      then unknown_band bands
      else known_band bands normalized (get bands normalized)

  -- what a component that reads bands comes to
  capped_band : String → BandComponent → Option Text → List Text → ℤ × List Text
  unfolding band_points
  capped_band label component key reasons =
      let (points, used) = band_points component.bands key in
      let capped = cap_component points component.max in
      (capped, reasons ++ arrow label used capped ∷ [])

  pub company_size_points : ScoreInput → ScoringConfig → List Text → ℤ × List Text
  unfolding capped_band
  company_size_points inp config reasons =
      capped_band "company_size=" config.components.company_size inp.company_size reasons

  -- the points, the label and the industry that the reason names
  industry_label : IndustryComponent → Text → ℤ × Text × Text
  industry_label component industry =
      if member industry (map chars.lower component.fit)
      then (component.fit_points, codes "fit", industry)
      else if member industry (map chars.lower component.partial)
      then (component.partial_points, codes "partial", industry)
      else (
        component.other_points,
        codes "other",
        if is_empty industry then codes "unknown" else industry,
      )

  pub industry_points : ScoreInput → ScoringConfig → List Text → ℤ × List Text
  unfolding industry_label
  industry_points inp config reasons =
      let component = config.components.industry_fit in
      let (points, label, industry) =
        industry_label component (chars.lower (strip chars (or_empty inp.industry))) in
      let capped = cap_component points component.max in
      (
        capped,
        reasons
            ++ (codes "industry="
                ++ industry
                ++ codes " ("
                ++ label
                ++ codes ") -> "
                ++ show_int capped)
              ∷ [],
      )

  pub budget_points : ScoreInput → ScoringConfig → List Text → ℤ × List Text
  unfolding capped_band
  budget_points inp config reasons =
      let component = config.components.budget in
      let field = get_or component.form_field (codes "budget_range") in
      capped_band "budget=" component (as_text (attribute inp field)) reasons

  -- `raw.strip() if isinstance(raw, str) and raw.strip() else None`
  stripped : Option Text → Option Text
  stripped none = none
  stripped (some raw) = let s = strip chars raw in if is_empty s then none else some s

  is_unknown : Option Text → Bool
  is_unknown none = true
  is_unknown (some timeline) = text_eq timeline (codes "unknown")

  -- the timeline, or the band of the model's hint where the form gives none
  timeline_or_hint : ScoreInput → BandComponent → Option Text → List Text → Option Text × List Text
  timeline_or_hint inp component timeline reasons =
      let hint = strip chars (or_empty inp.urgency_hint) in
      let band = get_or (get urgency_hint_to_band hint) (codes "unknown") in
      let field = get_or component.llm_fallback_field (codes "urgency_hint") in
      if is_unknown timeline && not (is_empty hint)
      then (
        some band,
        reasons
            ++ (codes "urgency used " ++ field ++ codes "=" ++ hint ++ codes " as " ++ band) ∷ [],
      )
      else (timeline, reasons)

  pub urgency_points : ScoreInput → ScoringConfig → List Text → ℤ × List Text
  unfolding capped_band timeline_or_hint stripped is_unknown
  urgency_points inp config reasons =
      let component = config.components.urgency in
      let field = get_or component.form_field (codes "timeline") in
      let (timeline, noted) =
        timeline_or_hint inp component (stripped (as_text (attribute inp field))) reasons in
      capped_band "urgency=" component timeline noted

  -- `inp.llm_status == "failed"`
  abbrev is_failed : Option Text → Bool
  is_failed none = false
  is_failed (some status) = text_eq status (codes "failed")

  intent_result : AiComponent → Text → List Text → ℤ × List Text
  intent_result component intent reasons =
      let points =
        cap_ai_component (get_or (get component.intent_points intent) (pos 0)) component.max in
      (
        points,
        reasons
            ++ (codes "intent="
                ++ intent
                ++ codes " -> "
                ++ show_int points
                ++ codes " (LLM cap "
                ++ show_int llm_score_cap
                ++ codes ")")
              ∷ [],
      )

  pub ai_points : ScoreInput → ScoringConfig → List Text → ℤ × List Text
  unfolding intent_result
  ai_points inp config reasons =
      let intent = strip chars (or_empty inp.intent) in
      if is_failed inp.llm_status
      then (pos 0, reasons ++ codes "llm_status=failed -> ai_qualification=0" ∷ [])
      else if is_empty intent
      then (pos 0, reasons ++ codes "ai_qualification missing intent -> 0" ∷ [])
      else intent_result config.components.ai_qualification intent reasons
