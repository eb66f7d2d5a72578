-- ===== src/Llm/Tests.antt =====
-- The theorems at one request, whose schema asks for an object with a nested one.
use n8n_production_systems.Json.{
  Json, integer, string, object, Members, end, member, field, has_key, lookup, or_null, set_member,
}
use n8n_production_systems.Text.{codes, text_eq}
use n8n_production_systems.Llm.{normal, ServiceState, ChatCompletionRequest, Host}
use n8n_production_systems.Llm.Schema.{
  Numbers, default_from_schema, schema_step, members_of, wanted_keys, first_enum,
}
use n8n_production_systems.Llm.Schema.Fuel.{depth_members, default_from_schema_ends}
use n8n_production_systems.Llm.Schema.Required.{default_from_schema_keys}
use n8n_production_systems.Common.{
  ℕ, ◌≤◌, ◌≡◌, refl, true, false, none, some, [], ◌∷◌, All, pos, arith,
}

abbrev numbers : Numbers
numbers = record {
  is_zero = λ s. false;
  render = λ v. [];
  truncate = λ s. pos 0;
  to_float = λ n. codes "0.0";
}

abbrev host : Host
host = record {
  numbers = numbers;
  dumps = λ v. codes "{}";
  request_hash = λ model messages. codes "ab";
}

abbrev nested : Members
nested = member (codes "type") (string (codes "integer")) end

abbrev schema : Members
schema =
    member (codes "type") (string (codes "object"))
      (member (codes "properties") (object (member (codes "score") (object nested) end)) end)

abbrev expected : Json
expected = object (member (codes "score") (integer (pos 0)) end)

schema_runs : default_from_schema numbers 3 schema ≡ expected
unfolding default_from_schema schema_step field text_eq has_key set_member
schema_runs = refl

abbrev state : ServiceState
state = record { mode = normal; timeout_seconds = 60; retry_after_s = 2; fixtures_dir = none }

abbrev request : ChatCompletionRequest
request = record {
  model = codes "m";
  messages = record { role = codes "user"; content = string (codes "hello") } ∷ [];
  schema = some schema;
}

default_from_schema_ends_example :
    (default_from_schema numbers 3 schema
      ≡ schema_step numbers (default_from_schema numbers 3) schema)
    × ((m : ℕ)
        → 3 ≤ m
        → default_from_schema numbers m schema ≡ default_from_schema numbers 3 schema)
unfolding depth_members
default_from_schema_ends_example = default_from_schema_ends numbers 3 schema (omega arith)

default_from_schema_keys_example :
    All
      (λ key. has_key (members_of (default_from_schema numbers 3 schema)) key ≡ true)
      (wanted_keys
        (field schema (codes "required"))
        (members_of (field schema (codes "properties"))))
unfolding field lookup or_null text_eq first_enum
default_from_schema_keys_example = default_from_schema_keys numbers 2 schema refl refl refl refl
