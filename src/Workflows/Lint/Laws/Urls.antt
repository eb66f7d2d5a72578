-- ===== src/Workflows/Lint/Laws/Urls.antt =====
-- The scan for addresses reports one exactly if a text of the parameters is one.
use n8n_production_systems.Json.{
  Json, null, boolean, integer, float, string, array, object, Elements, nil, cons, Members, end,
  member,
}
use n8n_production_systems.Text.{Text, codes, is_empty}
use n8n_production_systems.Workflows.Values.{Python}
use n8n_production_systems.Workflows.Sanitize.Secrets.{
  collect_strings, collect_elements, collect_members,
}
use n8n_production_systems.Workflows.Sanitize.Laws.Refused.{any_text, any_text-append}
use n8n_production_systems.Workflows.Lint.Rules.{has_literal_http_url}
use n8n_production_systems.Workflows.Lint.Issues.{
  scan_urls, scan_items, scan_members, issue_if, indexed,
}
use n8n_production_systems.Common.{
  ℕ, suc, ◌≡◌, refl, Bool, true, false, not, ◌||◌, ◌&&◌, List, [], ◌∷◌, ◌++◌, arith,
}

is_empty-append {ℓ} :
    {A : Type ℓ} (xs ys : List A) → is_empty (xs ++ ys) ≡ (is_empty xs && is_empty ys)
is_empty-append [] ys = refl
is_empty-append (x ∷ xs) ys = refl

not_or : (a b : Bool) → not (a || b) ≡ (not a && not b)
not_or true b = refl
not_or false b = refl

module _ (py : Python) where
  abbrev is_url : Text → Bool
  is_url = has_literal_http_url py.chars

  mutual
    unfolding scan_urls collect_strings any_text issue_if

    scan_urls_empty :
        (v : Json) (path : Text)
        → is_empty (scan_urls py v path) ≡ not (any_text is_url (collect_strings v))
    scan_urls_empty null path = refl
    scan_urls_empty (boolean b) path = refl
    scan_urls_empty (integer n) path = refl
    scan_urls_empty (float n) path = refl
    scan_urls_empty (string s) path = ground arith
    scan_urls_empty (array xs) path = scan_items_empty xs path 0
    scan_urls_empty (object ms) path = scan_members_empty ms path

    scan_items_empty :
        (xs : Elements) (path : Text) (index : ℕ)
        → is_empty (scan_items py xs path index) ≡ not (any_text is_url (collect_elements xs))
    scan_items_empty nil path index = refl
    scan_items_empty (cons x xs) path index =
        rw
          (
            any_text-append is_url (collect_strings x) (collect_elements xs),
            not_or (any_text is_url (collect_strings x)) (any_text is_url (collect_elements xs)),
            is_empty-append (scan_urls py x (indexed path index))
                (scan_items py xs path (suc index)),
            scan_urls_empty x (indexed path index),
            scan_items_empty xs path (suc index),
          )
          refl

    scan_members_empty :
        (ms : Members) (path : Text)
        → is_empty (scan_members py ms path) ≡ not (any_text is_url (collect_members ms))
    scan_members_empty end path = refl
    scan_members_empty (member key item ms) path =
        let inner = path ++ codes "." ++ key in
        rw
          (
            any_text-append is_url (collect_strings item) (collect_members ms),
            not_or (any_text is_url (collect_strings item)) (any_text is_url (collect_members ms)),
            is_empty-append (scan_urls py item inner) (scan_members py ms path),
            scan_urls_empty item inner,
            scan_members_empty ms path,
          )
          refl

-- The scan of a value for hardcoded addresses reports nothing exactly if no text in the value, at
-- any depth, holds a literal address.
pub scan_urls_lem :
    (py : Python) (v : Json) (path : Text)
    → is_empty (scan_urls py v path)
      ≡ not (any_text (has_literal_http_url py.chars) (collect_strings v))
scan_urls_lem py v path = scan_urls_empty py v path
