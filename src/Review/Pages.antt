-- ===== src/Review/Pages.antt =====
-- The pages of app.py as the values that its templates are given: the list of what waits, by kind
-- (`iter_kinds` of db.py), and one review.
pub mod Groups
use text.Mathlib.Text.{◌==◌ as str_eq}
use text.Mathlib.TextEquality.{eq_iff}
use n8n_production_systems.Dict.{get, put}
use n8n_production_systems.Review.Decisions.{is_pending}
use n8n_production_systems.Review.Auth.{Settings, Credentials, require_basic}
use n8n_production_systems.Review.Database.{
  Row, Db, Weather, fine, unreachable, fails, get_item, pending_rows,
}
use n8n_production_systems.Common.{
  Eq, ℕ, String, Bool, true, false, Option, none, some, if◌then◌else◌, List, [], ◌∷◌, ◌++◌, get_or,
  Outcome, ok, raises, database_unavailable, database_error, ◌>>=◌, ◌≡◌, ◌↔◌,
}

abbrev pub string_beq : String → String → Bool
string_beq s t = str_eq s t

instance abbrev pub string_key : Eq String
string_key = record { beq = string_beq; beq_iff = eq_iff }

-- str(item.get("kind") or "unknown")
unfoldable pub kind_of : Row → String
kind_of r = elim r.kind [
  | none ↦ "unknown"
  | some kind ↦ if str_eq kind "" then "unknown" else kind
]

abbrev pub Grouped : Type 0
Grouped = List (String × List Row)

-- grouped.setdefault(kind, []).append(item)
unfoldable pub add_item : Grouped → Row → Grouped
add_item grouped item =
    let kind = kind_of item in put grouped kind (get_or (get grouped kind) [] ++ item ∷ [])

unfoldable pub group_from : Grouped → List Row → Grouped
unfolding add_item
group_from grouped [] = grouped
group_from grouped (item ∷ items) = group_from (add_item grouped item) items

unfoldable pub iter_kinds : List Row → Grouped
unfolding group_from
iter_kinds items = group_from [] items

-- `list_pending` and `get_item` of db.py: a connection that fails raises `DatabaseUnavailable`, and a
-- statement that fails raises the error of the driver.
unfoldable pub read_rows : Weather → List Row → Outcome (List Row)
read_rows fine rows = ok rows
read_rows unreachable rows = raises database_unavailable
read_rows fails rows = raises database_error

-- `list.html`: whether there is an error, and the groups
pub record ListPage : Type 0 where
  pub error : Bool
  pub groups : Grouped

list_page : Outcome (List Row) → Outcome ListPage
list_page (ok items) = ok (record { error = false; groups = iter_kinds items })
list_page (raises database_unavailable) = ok (record { error = true; groups = [] })
list_page (raises e) = raises e

-- `order_by` is what the database does with the rows for the ORDER BY of `LIST_PENDING_SQL`.
unfoldable pub reviews_list :
    (List Row → List Row) → Settings → Credentials → Weather → Db → Outcome ListPage
unfolding read_rows list_page
reviews_list order_by settings credentials weather db = do
  _actor ← require_basic credentials settings
  list_page (read_rows weather (order_by (pending_rows db.queue)))

-- `detail.html` with its status; the payload of the item is printed there
pub record DetailPage : Type 0 where
  pub status_code : ℕ
  pub error : Bool
  pub item : Option Row
  pub pending : Bool

found_page : Option Row → DetailPage
found_page none = record { status_code = 404; error = true; item = none; pending = false }
found_page (some row) = record {
  status_code = 200;
  error = false;
  item = some row;
  pending = is_pending row.status;
}

detail_page : ℕ → Outcome (List Row) → Outcome DetailPage
unfolding found_page
detail_page id (ok rows) = ok (found_page (get_item rows id))
detail_page id (raises database_unavailable) =
    ok (record { status_code = 200; error = true; item = none; pending = false })
detail_page id (raises e) = raises e

unfoldable pub reviews_detail : Settings → Credentials → Weather → Db → ℕ → Outcome DetailPage
unfolding read_rows detail_page
reviews_detail settings credentials weather db id = do
  _actor ← require_basic credentials settings
  detail_page id (read_rows weather db.queue)
