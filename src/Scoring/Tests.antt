-- ===== src/Scoring/Tests.antt =====
-- The configuration of scoring.yaml and a lead, at which the theorems are applied.
use n8n_production_systems.Scoring.{
  ScoreInput, ScoringConfig, Components, RouteItem, Override, text, flag, attribute,
}
use n8n_production_systems.Scoring.Points.{llm_score_cap}
use n8n_production_systems.Scoring.Points.Form.{when_failed}
use n8n_production_systems.Scoring.Route.{route_from_score, ladder_index}
use n8n_production_systems.Scoring.Route.Choice.{IsBest, Unreached, route_from_score_cases}
use n8n_production_systems.Scoring.Lead.{score_lead, base_total, matches}
use n8n_production_systems.Scoring.Lead.Routing.{not_above, score_lead-capped}
use n8n_production_systems.Scoring.Lead.Llm.{base_total-failed}
use n8n_production_systems.Text.{codes, text_eq}
use n8n_production_systems.Text.Ascii.{ascii}
use n8n_production_systems.Common.{◌∷◌, pos, ◌≤ℤ◌, [], some, List, true, ◌≡◌, refl, ◌+ℤ◌, none, ◌⊎◌}
use n8n_production_systems.Text.Strip.{strip, lstrip}

abbrev components : Components
components = record {
  company_size = record {
    max = pos 25;
    bands =
        (codes "1-10", pos 5)
        ∷ (codes "11-50", pos 15)
        ∷ (codes "51-200", pos 25)
        ∷ (codes "201-1000", pos 20)
        ∷ (codes "1000+", pos 10)
        ∷ (codes "unknown", pos 5)
        ∷ [];
    form_field = none;
    llm_fallback_field = none;
  };
  industry_fit = record {
    max = pos 20;
    fit = codes "software" ∷ codes "saas" ∷ codes "manufacturing" ∷ codes "logistics" ∷ [];
    partial = codes "retail" ∷ codes "public_sector" ∷ [];
    fit_points = pos 20;
    partial_points = pos 10;
    other_points = pos 0;
  };
  budget = record {
    max = pos 20;
    bands =
        (codes "<5k", pos 0)
        ∷ (codes "5k-20k", pos 10)
        ∷ (codes "20k-50k", pos 16)
        ∷ (codes "50k+", pos 20)
        ∷ (codes "unknown", pos 5)
        ∷ [];
    form_field = some (codes "budget_range");
    llm_fallback_field = none;
  };
  urgency = record {
    max = pos 15;
    bands =
        (codes "now", pos 15)
        ∷ (codes "1-3 months", pos 10)
        ∷ (codes "3-6 months", pos 5)
        ∷ (codes "exploring", pos 2)
        ∷ (codes "unknown", pos 3)
        ∷ [];
    form_field = some (codes "timeline");
    llm_fallback_field = some (codes "urgency_hint");
  };
  ai_qualification = record {
    max = pos 20;
    intent_points =
        (codes "demo_request", pos 20)
        ∷ (codes "pricing", pos 16)
        ∷ (codes "partnership", pos 8)
        ∷ (codes "other", pos 4)
        ∷ (codes "support", pos 0)
        ∷ (codes "job_application", pos 0)
        ∷ (codes "spam", pos 0)
        ∷ [];
  };
}

abbrev routes : List RouteItem
routes =
    record { name = codes "sales"; min = pos 80 }
    ∷ record { name = codes "nurture"; min = pos 50 }
    ∷ record { name = codes "archive"; min = pos 0 }
    ∷ []

abbrev idle : Override
idle = record { when = []; when_mapping = true; cap_score = none; route = none; cap_route = none }

abbrev spam : Override
spam = record idle {
  when = (codes "intent", text (codes "spam")) ∷ [];
  route = some (codes "archive");
}

abbrev free_mail : Override
free_mail = record idle { when = (codes "is_free_mail", flag true) ∷ []; cap_score = some (pos 60) }

abbrev failed_model : Override
failed_model = record idle {
  when = (codes "llm_status", text (codes "failed")) ∷ [];
  cap_route = some (codes "nurture");
}

abbrev config : ScoringConfig
config = record {
  max_score = pos 100;
  components = components;
  routes = routes;
  overrides = spam ∷ free_mail ∷ failed_model ∷ [];
}

abbrev lead : ScoreInput
lead = record {
  company_size = some (codes "51-200");
  industry = some (codes " SaaS ");
  budget_range = some (codes "50k+");
  timeline = none;
  urgency_hint = some (codes "now");
  intent = some (codes "demo_request");
  is_free_mail = true;
  llm_status = none;
}

abbrev spam_lead : ScoreInput
spam_lead = record lead { intent = some (codes "spam") }

abbrev timed_lead : ScoreInput
timed_lead = record lead { timeline = some (codes " exploring") }

base_total-failed_example :
    base_total ascii timed_lead config
    ≤ℤ base_total ascii (when_failed timed_lead) config +ℤ llm_score_cap
unfolding strip lstrip text_eq
base_total-failed_example =
    base_total-failed ascii timed_lead config (codes " exploring") refl refl refl refl refl

route_from_score_cases_example :
    ((x : RouteItem) × IsBest (pos 79) routes x × (route_from_score (pos 79) routes ≡ x.name))
    ⊎ (Unreached (pos 79) routes × (route_from_score (pos 79) routes ≡ codes "archive"))
route_from_score_cases_example = route_from_score_cases (pos 79) routes

score_lead-capped_example :
    not_above
      (ladder_index (score_lead ascii (when_failed lead) config).route)
      (ladder_index (codes "nurture"))
    ≡ true
unfolding matches attribute text_eq
score_lead-capped_example =
    score_lead-capped ascii (when_failed lead) config (spam ∷ free_mail ∷ []) failed_model
      (codes "nurture") refl refl refl
