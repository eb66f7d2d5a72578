-- ===== src/Scoring.antt =====
-- projects/p01-lead-qualification/backend/src/p01_backend/score.py: the score of a lead and its
-- route. The configuration is the mapping of scoring.yaml, with the keys that the code reads without
-- a default present; an attribute of the input is one of the fields that its class declares.
pub mod Points
pub mod Route
pub mod Lead
mod Tests
use n8n_production_systems.Text.{Text, codes, text_eq}
use n8n_production_systems.Common.{
  List, ℤ, Bool, if◌then◌else◌, Option, some, pos, none, negsuc, ◌∷◌, suc,
}
use n8n_production_systems.Text.Show.{show}

pub record ScoreInput : Type 0 where
  pub company_size : Option Text
  pub industry : Option Text
  pub budget_range : Option Text
  pub timeline : Option Text
  pub urgency_hint : Option Text
  pub intent : Option Text
  pub is_free_mail : Bool
  pub llm_status : Option Text

-- a component that reads bands; `form_field` and `llm_fallback_field` may be left out
pub record BandComponent : Type 0 where
  pub max : ℤ
  pub bands : List (Text × ℤ)
  pub form_field : Option Text
  pub llm_fallback_field : Option Text

pub record IndustryComponent : Type 0 where
  pub max : ℤ
  pub fit : List Text
  pub partial : List Text
  pub fit_points : ℤ
  pub partial_points : ℤ
  pub other_points : ℤ

pub record AiComponent : Type 0 where
  pub max : ℤ
  pub intent_points : List (Text × ℤ)

pub record Components : Type 0 where
  pub company_size : BandComponent
  pub industry_fit : IndustryComponent
  pub budget : BandComponent
  pub urgency : BandComponent
  pub ai_qualification : AiComponent

-- an item of `routes`
pub record RouteItem : Type 0 where
  pub name : Text
  pub min : ℤ

-- a value of a condition: text, a flag, a number or null
pub data Scalar : Type 0 where
  text : Text → Scalar
  flag : Bool → Scalar
  integer : ℤ → Scalar
  null : Scalar

-- An item of `overrides`. A `when` that is left out, or null, is an empty mapping; `when_mapping` is
-- false for one that is no mapping.
pub record Override : Type 0 where
  pub when : List (Text × Scalar)
  pub when_mapping : Bool
  pub cap_score : Option ℤ
  pub route : Option Text
  pub cap_route : Option Text

pub record ScoringConfig : Type 0 where
  pub max_score : ℤ
  pub components : Components
  pub routes : List RouteItem
  pub overrides : List Override

abbrev pub scalar_of : Option Text → Scalar
scalar_of none = null
scalar_of (some s) = text s

-- getattr(inp, field, None)
unfoldable pub attribute : ScoreInput → Text → Scalar
attribute inp field =
    if text_eq field (codes "company_size")
    then scalar_of inp.company_size
    else if text_eq field (codes "industry")
    then scalar_of inp.industry
    else if text_eq field (codes "budget_range")
    then scalar_of inp.budget_range
    else if text_eq field (codes "timeline")
    then scalar_of inp.timeline
    else if text_eq field (codes "urgency_hint")
    then scalar_of inp.urgency_hint
    else if text_eq field (codes "intent")
    then scalar_of inp.intent
    else if text_eq field (codes "is_free_mail")
    then flag inp.is_free_mail
    else if text_eq field (codes "llm_status")
    then scalar_of inp.llm_status
    else null

-- `raw if isinstance(raw, str) else None`
abbrev pub as_text : Scalar → Option Text
as_text (text s) = some s
as_text (flag b) = none
as_text (integer n) = none
as_text null = none

-- an f-string's `{n}`
abbrev pub show_int : ℤ → Text
show_int (pos n) = show n
show_int (negsuc n) = b'-' ∷ show (suc n)
