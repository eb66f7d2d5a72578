-- ===== src/Scoring/Lead.antt =====
-- `score_lead`: the sum of the components, and the overrides in their order.
pub mod Overrides
pub mod Routing
pub mod Llm
use n8n_production_systems.Scoring.{
  ScoreInput, ScoringConfig, Scalar, text, flag, integer, null, Override, attribute, show_int,
  RouteItem,
}
use n8n_production_systems.Scoring.Points.{
  company_size_points, industry_points, budget_points, urgency_points, ai_points,
}
use n8n_production_systems.Scoring.Route.{route_from_score, cap_route}
use n8n_production_systems.Text.{Text, CharDb, codes, text_eq, is_empty}
use n8n_production_systems.Common.{
  ◌++◌, false, ℤ, negsuc, Bool, List, Option, some, true, ◌+ℤ◌, [], not, ◌∷◌, min_ℤ, pos, ltb_ℤ,
  ◌==◌, none, if◌then◌else◌, ◌&&◌,
}

pub record Breakdown : Type 0 where
  pub company_size : ℤ
  pub industry_fit : ℤ
  pub budget : ℤ
  pub urgency : ℤ
  pub ai_qualification : ℤ

pub record ScoreResult : Type 0 where
  pub score : ℤ
  pub breakdown : Breakdown
  pub route : Text
  pub reasons : List Text

-- sum(breakdown.values())
unfoldable pub sum : Breakdown → ℤ
sum b = b.company_size +ℤ b.industry_fit +ℤ b.budget +ℤ b.urgency +ℤ b.ai_qualification

int_eq : ℤ → ℤ → Bool
int_eq (pos m) (pos n) = m == n
int_eq (negsuc m) (negsuc n) = m == n
int_eq (pos m) (negsuc n) = false
int_eq (negsuc m) (pos n) = false

-- a flag is the integer 0 or 1
as_int : Bool → ℤ
as_int true = pos 1
as_int false = pos 0

-- `actual == expected`
scalar_eq : Scalar → Scalar → Bool
unfolding int_eq as_int
scalar_eq (text s) (text t) = text_eq s t
scalar_eq (flag b) (flag c) = int_eq (as_int b) (as_int c)
scalar_eq (flag b) (integer n) = int_eq (as_int b) n
scalar_eq (integer m) (integer n) = int_eq m n
scalar_eq (integer m) (flag c) = int_eq m (as_int c)
scalar_eq null null = true
scalar_eq (text s) (flag c) = false
scalar_eq (text s) (integer n) = false
scalar_eq (text s) null = false
scalar_eq (flag b) (text t) = false
scalar_eq (flag b) null = false
scalar_eq (integer m) (text t) = false
scalar_eq (integer m) null = false
scalar_eq null (text t) = false
scalar_eq null (flag c) = false
scalar_eq null (integer n) = false

-- bool(value)
truth : Scalar → Bool
unfolding int_eq
truth (text s) = not (is_empty s)
truth (flag b) = b
truth (integer n) = not (int_eq n (pos 0))
truth null = false

bool_eq : Bool → Bool → Bool
bool_eq true b = b
bool_eq false b = not b

unfoldable pub matches : List (Text × Scalar) → ScoreInput → Bool
unfolding scalar_eq truth bool_eq
matches [] inp = true
matches ((key, expected) ∷ when) inp =
    let actual = attribute inp key in
    let rest = matches when inp in
    if text_eq key (codes "is_free_mail")
    then bool_eq (truth actual) (truth expected) && rest
    else scalar_eq actual expected && rest

-- what the loop over the overrides holds
pub record Ruling : Type 0 where
  pub total : ℤ
  pub route : Text
  pub forced_route : Bool
  pub reasons : List Text

abbrev note : Ruling → Text → List Text
note r reason = r.reasons ++ reason ∷ []

unfoldable pub apply_cap_score : List RouteItem → Ruling → Option ℤ → Ruling
apply_cap_score routes r none = r
apply_cap_score routes r (some cap) =
    let over = ltb_ℤ cap r.total in
    let total = if over then cap else r.total in
    record {
      total = total;
      route = if r.forced_route then r.route else route_from_score total routes;
      forced_route = r.forced_route;
      reasons = note r (
          codes "override cap_score="
          ++ show_int cap
          ++ (if over
              then codes " (was " ++ show_int r.total ++ codes ")"
              else codes " (score already " ++ show_int r.total ++ codes ")"));
    }

unfoldable pub apply_route : Ruling → Option Text → Ruling
apply_route r none = r
apply_route r (some route) = record r {
  route = route;
  forced_route = true;
  reasons = note r (codes "override route=" ++ route);
}

unfoldable pub apply_cap_route : Ruling → Option Text → Ruling
apply_cap_route r none = r
apply_cap_route r (some cap) =
    let capped = cap_route r.route cap in
    record r {
      route = capped;
      reasons = note r (
          codes "override cap_route="
          ++ cap
          ++ (if text_eq capped r.route
              then codes " (route stays " ++ r.route ++ codes ")"
              else codes " (was " ++ r.route ++ codes ")"));
    }

unfoldable pub apply_override : ScoreInput → List RouteItem → Ruling → Override → Ruling
unfolding apply_cap_score apply_route apply_cap_route
apply_override inp routes r o =
    if o.when_mapping && matches o.when inp
    then apply_cap_route (apply_route (apply_cap_score routes r o.cap_score) o.route) o.cap_route
    else r

unfoldable pub apply_overrides : ScoreInput → List RouteItem → Ruling → List Override → Ruling
unfolding apply_override
apply_overrides inp routes r [] = r
apply_overrides inp routes r (o ∷ os) =
    apply_overrides inp routes (apply_override inp routes r o) os

module _ (chars : CharDb) where
  unfoldable pub breakdown_of : ScoreInput → ScoringConfig → Breakdown × List Text
  breakdown_of inp config =
      let (company_size, r1) = company_size_points chars inp config [] in
      let (industry_fit, r2) = industry_points chars inp config r1 in
      let (budget, r3) = budget_points chars inp config r2 in
      let (urgency, r4) = urgency_points chars inp config r3 in
      let (ai_qualification, r5) = ai_points chars inp config r4 in
      (
        record {
          company_size = company_size;
          industry_fit = industry_fit;
          budget = budget;
          urgency = urgency;
          ai_qualification = ai_qualification;
        },
        r5,
      )

  -- min(sum(breakdown.values()), config.max_score)
  unfoldable pub base_total : ScoreInput → ScoringConfig → ℤ
  unfolding breakdown_of
  base_total inp config = min_ℤ (sum (breakdown_of inp config).0) config.max_score

  unfoldable pub first_ruling : ScoreInput → ScoringConfig → Ruling
  unfolding base_total breakdown_of
  first_ruling inp config =
      let total = base_total inp config in
      record {
        total = total;
        route = route_from_score total config.routes;
        forced_route = false;
        reasons = (breakdown_of inp config).1;
      }

  unfoldable pub score_lead : ScoreInput → ScoringConfig → ScoreResult
  unfolding first_ruling apply_overrides breakdown_of
  score_lead inp config =
      let ruling = apply_overrides inp config.routes (first_ruling inp config) config.overrides in
      record {
        score = ruling.total;
        breakdown = (breakdown_of inp config).0;
        route = ruling.route;
        reasons =
            ruling.reasons
            ++ (codes "route=" ++ ruling.route ++ codes " score=" ++ show_int ruling.total) ∷ [];
      }
