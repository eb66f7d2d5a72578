-- ===== src/Errors.antt =====
-- platform/libs/python/errors.py: the class of an error, by its HTTP status, code and message.
pub mod Status
pub mod Classes
mod Tests
use n8n_production_systems.Dict.{get}
use n8n_production_systems.Text.{Text, CharDb, codes, text_eq, is_empty, starts_with}
use n8n_production_systems.Text.Contains.{is_member, is_in}
use n8n_production_systems.Text.Equality.{text_key}
use Status.{
  Value, null, flag, text, Field, leaf, mapping, Fields, field_of, nested_field, first_status,
}
use n8n_production_systems.Common.{
  get_or, ◌>>=◌, [], Option, if◌then◌else◌, String, Bool, List, false, ◌∷◌, ℕ, ◌||◌, Outcome, ◌==◌,
  ◌&&◌, some, none, true, ok, ◌++◌,
}

-- the keys of `_parse`'s result
pub record Parsed : Type 0 where
  pub status : Option ℕ
  pub code : Text
  pub blob : Text
  pub idempotent_create : Bool

pub record Classification : Type 0 where
  pub class : String
  pub retry : Bool
  pub idempotent_success : Bool

abbrev pub transient_status : List ℕ
transient_status = 500 ∷ 502 ∷ 503 ∷ 504 ∷ []

abbrev pub rate_limit_status : List ℕ
rate_limit_status = 429 ∷ []

abbrev pub invalid_status : List ℕ
invalid_status = 400 ∷ 422 ∷ []

abbrev pub auth_status : List ℕ
auth_status = 401 ∷ 403 ∷ []

abbrev pub permanent_status : List ℕ
permanent_status = 404 ∷ 410 ∷ 501 ∷ 409 ∷ []

abbrev pub transient_codes : List Text
transient_codes =
    codes "etimedout"
    ∷ codes "esockettimedout"
    ∷ codes "econnreset"
    ∷ codes "econnrefused"
    ∷ codes "econnaborted"
    ∷ codes "epipe"
    ∷ codes "eai_again"
    ∷ codes "enotfound"
    ∷ codes "eai_noname"
    ∷ codes "und_err_connect_timeout"
    ∷ codes "und_err_headers_timeout"
    ∷ codes "und_err_body_timeout"
    ∷ codes "timeout"
    ∷ codes "timeouterror"
    ∷ []

abbrev pub transient_markers : List Text
transient_markers =
    codes "timed out"
    ∷ codes "timeout"
    ∷ codes "deadline exceeded"
    ∷ codes "connection reset"
    ∷ codes "connection refused"
    ∷ codes "socket hang up"
    ∷ codes "econnreset"
    ∷ codes "econnrefused"
    ∷ codes "eai_again"
    ∷ codes "enotfound"
    ∷ codes "temporary failure in name resolution"
    ∷ codes "getaddrinfo"
    ∷ []

abbrev pub rate_limit_markers : List Text
rate_limit_markers =
    codes "rate_limit"
    ∷ codes "ratelimit"
    ∷ codes "too many requests"
    ∷ codes "too_many_requests"
    ∷ codes "throttl"
    ∷ codes "resource_exhausted"
    ∷ []

abbrev pub invalid_markers : List Text
invalid_markers =
    codes "schema validation"
    ∷ codes "validation error"
    ∷ codes "validation failed"
    ∷ codes "json schema"
    ∷ codes "schema_validation"
    ∷ codes "validation_error"
    ∷ codes "pydantic"
    ∷ []

abbrev pub code_keys : List Text
code_keys = codes "code" ∷ codes "errno" ∷ codes "errorCode" ∷ codes "error_code" ∷ []

abbrev pub message_keys : List Text
message_keys = codes "message" ∷ codes "description" ∷ []

-- status in a set of statuses
unfoldable pub has_status : Option ℕ → List ℕ → Bool
has_status none codes_of = false
has_status (some status) [] = false
has_status (some status) (c ∷ cs) = status == c || has_status (some status) cs

unfoldable pub has_marker : Text → List Text → Bool
has_marker blob [] = false
has_marker blob (marker ∷ markers) = is_in marker blob || has_marker blob markers

unfoldable pub is_transient : Text → Text → Bool
is_transient code blob = is_member code transient_codes || has_marker blob transient_markers

abbrev result : String → Bool → Bool → Classification
result class retry idempotent_success = record {
  class = class;
  retry = retry;
  idempotent_success = idempotent_success;
}

-- `classify_error`, behind `_parse`
unfoldable pub classify : Parsed → Classification
classify parsed =
    if has_status parsed.status (409 ∷ []) && parsed.idempotent_create
    then result "success" false true
    else if has_status parsed.status transient_status
    then result "transient" true false
    else if has_status parsed.status rate_limit_status
    then result "rate_limited" true false
    else if has_status parsed.status invalid_status
    then result "invalid_data" false false
    else if has_status parsed.status auth_status
    then result "auth" false false
    else if has_status parsed.status permanent_status
    then result "permanent" false false
    else if is_transient parsed.code parsed.blob
    then result "transient" true false
    else if has_marker parsed.blob rate_limit_markers
    then result "rate_limited" true false
    else if has_marker parsed.blob invalid_markers
    then result "invalid_data" false false
    else result "unknown" false false

-- text.replace("-", "_")
abbrev pub underscored : Text → Text
underscored [] = []
underscored (c ∷ s) = (if c == b'-' then b'_' else c) ∷ underscored s

-- a text that is not empty, or what comes next
or_text : Field → Text → Text
or_text (leaf (text (c ∷ s))) next = c ∷ s
or_text _ next = next

-- the value is the object `True`
is_true : Field → Bool
is_true (leaf (flag b)) = b
is_true _ = false

is_true_under : Fields → Fields → Text → Bool
unfolding is_true
is_true_under src nested key = is_true (field_of src key) || is_true (field_of nested key)

unfoldable pub first_text : Fields → Fields → List Text → Text
unfolding or_text
first_text src nested [] = []
first_text src nested (key ∷ keys) =
    or_text (field_of src key) (or_text (field_of nested key) (first_text src nested keys))

-- `error_field` where it is a text
text_of : Field → Text
text_of (leaf (text s)) = s
text_of _ = []

module _ (chars : CharDb) (render : Field → Text) where
  norm_code : Text → Text
  norm_code value = underscored (chars.lower value)

  unfoldable pub parse : Option Fields → Outcome Parsed
  unfolding norm_code is_true_under text_of
  parse input_value =
      let src = get_or input_value [] in
      let error_field = field_of src (codes "error") in
      let nested = nested_field error_field in
      let code = norm_code (first_text src nested code_keys) in
      let message = chars.lower (first_text src nested message_keys) in
      let error_text = chars.lower (text_of error_field) in
      do
        status ← first_status chars render src nested
        ok record {
          status = status;
          code = code;
          blob = underscored (code ++ codes " " ++ message ++ codes " " ++ error_text);
          idempotent_create =
              is_true_under src nested (codes "idempotent_create")
              || is_true_under src nested (codes "idempotentCreate");
        }

  unfoldable pub classify_error : Option Fields → Outcome Classification
  classify_error input_value = do parsed ← parse input_value; ok (classify parsed)
