-- ===== src/Scoring/Route.antt =====
-- The route that a score leads to, and the ladder that caps it.
pub mod Choice
use n8n_production_systems.Scoring.{RouteItem, ScoringConfig}
use n8n_production_systems.Text.{Text, codes, text_eq}
use n8n_production_systems.Common.{
  List, Option, ℤ, ◌∷◌, ℕ, if◌then◌else◌, [], some, ltb_ℤ, ltb, none,
}

-- The stable sort of `sorted(…, key=…, reverse=True)`: an item goes before those whose key is not
-- larger.
unfoldable pub insert_route : RouteItem → List RouteItem → List RouteItem
insert_route item [] = item ∷ []
insert_route item (other ∷ rest) =
    let later = insert_route item rest in
    if ltb_ℤ item.min other.min then other ∷ later else item ∷ other ∷ rest

unfoldable pub sort_routes : List RouteItem → List RouteItem
unfolding insert_route
sort_routes [] = []
sort_routes (item ∷ rest) = insert_route item (sort_routes rest)

unfoldable pub first_route : ℤ → List RouteItem → Text
first_route score [] = codes "archive"
first_route score (item ∷ rest) =
    let later = first_route score rest in if ltb_ℤ score item.min then later else item.name

unfoldable pub route_from_score : ℤ → List RouteItem → Text
unfolding sort_routes first_route
route_from_score score routes = first_route score (sort_routes routes)

-- LADDER_ROUTES.index, and `none` for a route that is not in it
unfoldable pub ladder_index : Text → Option ℕ
ladder_index route =
    if text_eq route (codes "archive")
    then some 0
    else if text_eq route (codes "nurture")
    then some 1
    else if text_eq route (codes "sales")
    then some 2
    else none

abbrev pub pick_lower : Text → Text → Option ℕ → Option ℕ → Text
pick_lower current cap (some i) (some j) = if ltb j i then cap else current
pick_lower current cap (some i) none = current
pick_lower current cap none j = current

unfoldable pub cap_route : Text → Text → Text
cap_route current cap = pick_lower current cap (ladder_index current) (ladder_index cap)
