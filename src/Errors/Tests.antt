-- ===== src/Errors/Tests.antt =====
-- Two errors, at which the theorems are applied.
use n8n_production_systems.Errors.{Parsed, classify, has_status}
use n8n_production_systems.Errors.Classes.{classify-status}
use n8n_production_systems.Errors.Status.{
  Value, Field, Fields, leaf, integer, field_of, first_status, to_status, in_range, or_next,
}
use n8n_production_systems.Dict.{get}
use n8n_production_systems.Text.{Text, codes, text_eq}
use n8n_production_systems.Text.Ascii.{ascii}
use n8n_production_systems.Common.{◌≡◌, ◌∷◌, [], some, false, ok, refl, pos, true}

abbrev conflict : Parsed
conflict = record {
  status = some 409;
  code = [];
  blob = codes "duplicate";
  idempotent_create = true;
}

abbrev unauthorized_timeout : Parsed
unauthorized_timeout = record {
  status = some 401;
  code = codes "etimedout";
  blob = codes "etimedout timed out ";
  idempotent_create = false;
}

classify-status_example :
    classify unauthorized_timeout
    ≡ classify (record unauthorized_timeout { code = codes "eperm"; blob = codes "denied" })
unfolding has_status
classify-status_example = classify-status unauthorized_timeout (codes "eperm") (codes "denied") refl

-- nothing of the examples is rendered
abbrev render : Field → Text
render f = []

abbrev fields : Fields
fields =
    (codes "message", leaf (Value.text (codes "busy")))
    ∷ (codes "statusCode", leaf (integer (pos 503)))
    ∷ []

found : first_status ascii render fields [] ≡ ok (some 503)
unfolding first_status field_of to_status in_range or_next get text_eq
found = refl
