-- ===== src/Review/Tests.antt =====
-- A queue of one pending review, at which the theorems are applied.
use n8n_production_systems.Review.Decisions.{is_pending}
use n8n_production_systems.Review.Database.{Row, fine, fails, get_item, Claim, pending_rows}
use n8n_production_systems.Review.App.{
  State, World, approve, reject, Request, handle, run, notice_of, status_of, claim_of,
}
use n8n_production_systems.Review.App.Faults.{answer, answer_in, handle-answer}
use n8n_production_systems.Review.App.Once.{Inv, run-Inv}
use n8n_production_systems.Review.App.Final.{first_decision_stands}
use n8n_production_systems.Review.Auth.{Settings, Credentials, Form, require_basic, submit}
use n8n_production_systems.Review.Auth.Laws.{submit_lem, all_plain, IsKnown}
use n8n_production_systems.Review.Pages.{reviews_list}
use n8n_production_systems.Review.Pages.Groups.{of_kind, shown, reviews_list-of_kind}
use n8n_production_systems.Text.{codes, all_ascii, text_eq}
use n8n_production_systems.Text.Digest.{compare_digest}
use n8n_production_systems.Text.Ascii.{ascii}
use n8n_production_systems.Common.{
  [], arith, ◌≡◌, some, ◌∷◌, List, true, ok, refl, none, false, inr, inl, ◌⊎◌, raises, unauthorized,
  type_error,
}
use n8n_production_systems.Review.App.Phases.{Steps, is_waiting, phase, run-is_waiting, run-Steps}

abbrev row : Row
row = record {
  id = 7;
  project = some "p02";
  kind = some "invoice";
  subject_id = some "doc-1";
  payload = none;
  status = some "pending";
  created_at = 1;
  decided_at = none;
  decided_by = none;
  decision = none;
  callback_workflow_id = none;
}

abbrev decided_row : Row
decided_row = record row { status = some "approved" }

abbrev waiting : State
waiting = record { db = record { queue = row ∷ []; audit = [] }; posted = [] }

abbrev settled : State
settled = record { db = record { queue = decided_row ∷ []; audit = [] }; posted = [] }

abbrev sunny : World
sunny = record { weather = fine; receiver_ok = true; now = 5 }

abbrev stormy : World
stormy = record { weather = fails; receiver_ok = true; now = 6 }

abbrev approval : Request
approval = record { verb = approve; id = 7; actor = "ann"; reason = codes "fine" }

abbrev rejection : Request
rejection = record { verb = reject; id = 7; actor = "bob"; reason = [] }

waiting-Inv : Inv waiting
waiting-Inv = record {
  unique = (tt, tt);
  once = λ id. omega arith;
  together = λ id. refl;
  untouched = λ id w. refl;
}

settled-Inv : Inv settled
settled-Inv = record {
  unique = (tt, tt);
  once = λ id. omega arith;
  together = λ id. refl;
  untouched = λ id w. refl;
}

abbrev requests : List (World × Request)
requests = (stormy, approval) ∷ (sunny, approval) ∷ (sunny, rejection) ∷ []

run-Inv_example : Inv (run ascii waiting requests)
run-Inv_example = run-Inv ascii waiting requests waiting-Inv

first_decision_stands_example :
    let s' = (handle ascii sunny waiting approval).1 in
    ((handle ascii sunny waiting approval).0 ≡ ok (notice_of true (status_of approve)))
    × (handle ascii sunny s' rejection ≡ (ok "already_decided", s'))
unfolding get_item is_pending
first_decision_stands_example =
    first_decision_stands ascii sunny sunny waiting approval rejection row waiting-Inv refl refl
      refl refl refl

handle-answer_example :
    handle ascii stormy waiting approval
    ≡ answer_in fails (answer ascii stormy waiting approval (get_item waiting.db.queue 7)) waiting
handle-answer_example = handle-answer ascii stormy waiting approval (tt, tt)

abbrev other_row : Row
other_row = record row { id = 8 }

abbrev claim : Claim
claim = claim_of ascii sunny 7 "approved" "ann" (codes "fine")

claim_status : is_pending (some claim.status) ≡ false
unfolding is_pending
claim_status = refl

run-Steps_example : Steps (phase waiting 7) (phase (run ascii waiting requests) 7)
run-Steps_example = run-Steps ascii waiting requests 7 waiting-Inv

run-is_waiting_example : is_waiting (phase (run ascii waiting requests) 7) ≡ false
run-is_waiting_example =
    run-is_waiting ascii waiting requests 7 waiting-Inv (inr (inl (refl, refl)))

abbrev settings : Settings
settings = record {
  review_ui_user = codes "rev";
  review_ui_password = codes "pw";
  review_ui_actor_id = "reviewer-1";
}

abbrev credentials : Credentials
credentials = record { username = codes "rev"; password = codes "pw" }

abbrev form : Form
form = record { verb = approve; id = 7; reason = codes "fine" }

let_in : require_basic credentials settings ≡ ok "reviewer-1"
unfolding require_basic compare_digest all_ascii text_eq
let_in = refl

submit_lem_example :
    ((all_plain settings credentials ≡ true)
      × IsKnown settings credentials
      × (submit ascii settings sunny waiting credentials form
          ≡ handle ascii sunny waiting
              (record { verb = approve; id = 7; actor = "reviewer-1"; reason = codes "fine" })))
    ⊎ ((all_plain settings credentials ≡ true)
        × (¬ IsKnown settings credentials)
        × (submit ascii settings sunny waiting credentials form ≡ (raises unauthorized, waiting)))
    ⊎ ((all_plain settings credentials ≡ false)
        × (submit ascii settings sunny waiting credentials form ≡ (raises type_error, waiting)))
submit_lem_example = submit_lem ascii settings sunny waiting credentials form

reviews_list-of_kind_example :
    shown
      (reviews_list
        (λ rows. rows)
        settings
        credentials
        fine
        (record { queue = row ∷ []; audit = [] }))
      "invoice"
    ≡ some (of_kind "invoice" (pending_rows (row ∷ [])))
reviews_list-of_kind_example =
    reviews_list-of_kind (λ rows. rows) settings credentials
      (record { queue = row ∷ []; audit = [] }) "invoice" "reviewer-1" let_in
