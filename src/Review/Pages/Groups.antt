-- ===== src/Review/Pages/Groups.antt =====
-- The groups of the list page hold what waits, by kind.
use text.Mathlib.TextEquality.{eq_iff}
use n8n_production_systems.Dict.{get, put, get-put}
use n8n_production_systems.Review.Database.{Row, Db, fine, pending_rows}
use n8n_production_systems.Review.Auth.{Settings, Credentials, require_basic}
use n8n_production_systems.Review.Pages.{
  string_beq, string_key, kind_of, Grouped, add_item, group_from, iter_kinds, reviews_list,
  ListPage,
}
use n8n_production_systems.Common.{
  String, ◌≡◌, refl, Option, none, some, if◌then◌else◌, List, [], ◌∷◌, ◌++◌, get_or, Bool-cases,
  inl, inr, append_assoc, append-nil, ◌∙◌, ap, Outcome, ok, raises,
}

-- the rows of a kind, in their order
unfoldable pub of_kind : String → List Row → List Row
of_kind kind [] = []
of_kind kind (r ∷ rs) = if string_beq (kind_of r) kind then r ∷ of_kind kind rs else of_kind kind rs

-- the group of a kind; there is none where the key is missing
abbrev pub group_of : Grouped → String → List Row
group_of grouped kind = get_or (get grouped kind) []

group_of-add_item :
    (grouped : Grouped) (r : Row) (kind : String)
    → group_of (add_item grouped r) kind
      ≡ group_of grouped kind ++ (if string_beq (kind_of r) kind then r ∷ [] else [])
unfolding add_item
group_of-add_item grouped r kind =
    let item = group_of grouped (kind_of r) ++ r ∷ [] in
    let found : get (put grouped (kind_of r) item) kind
        ≡ (if string_beq (kind_of r) kind then some item else get grouped kind) =
      get-put grouped (kind_of r) kind item in
    elim (Bool-cases (string_beq (kind_of r) kind)) [
      | inl same ↦
          let eq : kind_of r ≡ kind = (eq_iff (kind_of r) kind).0 same in rw (found, same, eq) refl
      | inr other ↦ rw (found, other, append-nil (group_of grouped kind)) refl
    ]

one_more :
    (xs : List Row) (r : Row) (rs : List Row) (kind : String)
    → xs ++ (if string_beq (kind_of r) kind then r ∷ [] else []) ++ of_kind kind rs
      ≡ xs ++ of_kind kind (r ∷ rs)
unfolding of_kind
one_more xs r rs kind = elim (Bool-cases (string_beq (kind_of r) kind)) [
  | inl same ↦ rw same (append_assoc xs (r ∷ []) (of_kind kind rs))
  | inr other ↦ rw (other, append-nil xs) refl
]

group_of-group_from :
    (items : List Row) (grouped : Grouped) (kind : String)
    → group_of (group_from grouped items) kind ≡ group_of grouped kind ++ of_kind kind items
unfolding group_from of_kind
group_of-group_from [] grouped kind = rw (append-nil (group_of grouped kind)) refl
group_of-group_from (r ∷ rs) grouped kind =
    group_of-group_from rs (add_item grouped r) kind
    ∙ rw (group_of-add_item grouped r kind) (one_more (group_of grouped kind) r rs kind)

-- the group of a kind that the list page shows, if there is a page
unfoldable pub shown : Outcome ListPage → String → Option (List Row)
shown (ok page) kind = some (group_of page.groups kind)
shown (raises e) kind = none

-- A reviewer who is let in sees as the group of a kind the waiting reviews of that kind, all of
-- them, in the order of the database, while the database works; a review without a kind is of the
-- kind `unknown`.
pub reviews_list-of_kind :
    (order_by : List Row → List Row) (settings : Settings) (credentials : Credentials) (db : Db)
    (kind actor : String)
    → require_basic credentials settings ≡ ok actor
    → shown (reviews_list order_by settings credentials fine db) kind
      ≡ some (of_kind kind (order_by (pending_rows db.queue)))
unfolding shown reviews_list iter_kinds of_kind get
reviews_list-of_kind order_by settings credentials db kind actor passed =
    let rows = order_by (pending_rows db.queue) in
    let grouped : group_of (group_from [] rows) kind ≡ of_kind kind rows =
      group_of-group_from rows [] kind in
    rw passed (ap some grouped)
