-- ===== src/Llm.antt =====
-- platform/services/mock-llm/src/mock_llm/main.py: the stand-in for the language model. The hash of
-- a request and the printing of a JSON value are parameters, as are the fixture files.
pub mod Schema
pub mod Laws
mod Tests
use n8n_production_systems.Json.{
  Json, null, boolean, integer, float, string, array, object, Elements, nil, cons, Members, end,
  member, lookup, field, has_key,
}
use n8n_production_systems.Text.{Text, codes, text_eq, is_empty}
use n8n_production_systems.Text.Show.{show}
use n8n_production_systems.Common.{
  ℕ, suc, ◌+◌, ◌/◌, Bool, true, false, Option, none, some, if◌then◌else◌, List, [], ◌∷◌, ◌++◌, map,
  length, take, get_or, leb, ◌==◌,
}
use Schema.{Numbers, default_from_schema, placeholder}
use Schema.Fuel.{depth_members}

pub data AdminMode : Type 0 where
  invalid_json timeout rate_limited server_error normal : AdminMode

-- `fixtures_dir` is none where the directory is not there; a file is its stem and its value, in the
-- order of the names.
pub record ServiceState : Type 0 where
  pub mode : AdminMode
  pub timeout_seconds : ℕ
  pub retry_after_s : ℕ
  pub fixtures_dir : Option (List (Text × Json))

pub record ChatMessage : Type 0 where
  pub role : Text
  pub content : Json

-- The schema of the response format, where one is asked for.
pub record ChatCompletionRequest : Type 0 where
  pub model : Text
  pub messages : List ChatMessage
  pub schema : Option Members

pub record Completion : Type 0 where
  pub id : Text
  pub model : Text
  pub content : Text
  pub prompt_tokens : ℕ
  pub completion_tokens : ℕ
  pub total_tokens : ℕ

-- An error has a status, a code, and the header Retry-After where it is set.
pub data Answer : Type 0 where
  openai_error : ℕ → Text → Option Text → Answer
  completed : Completion → Answer

-- `waits` is the time that passes before the answer.
pub record Response : Type 0 where
  pub waits : ℕ
  pub answer : Answer

-- `dumps` prints a value and `request_hash` hashes a model with the roles and contents.
pub record Host : Type 0 where
  pub numbers : Numbers
  pub dumps : Json → Text
  pub request_hash : Text → List (Json × Json) → Text

-- max(1, (len(text) + 3) // 4), and 0 for the empty text
unfoldable pub count_tokens : Text → ℕ
count_tokens s =
    if is_empty s then 0 else if leb 1 ((length s + 3) / 4) then (length s + 3) / 4 else 1

unfoldable pub unwrap_fixture : Json → Json
unwrap_fixture (object ms) =
    if has_key ms (codes "content")
    then field ms (codes "content")
    else if has_key ms (codes "response")
    then field ms (codes "response")
    else object ms
unwrap_fixture v = v

-- " ".join
unfoldable pub join_spaces : List Text → Text
join_spaces [] = []
join_spaces (s ∷ []) = s
join_spaces (s ∷ t ∷ ts) = s ++ codes " " ++ join_spaces (t ∷ ts)

text_part : Json → List Text
text_part (string s) = s ∷ []
text_part _ = []

part_texts : Elements → List Text
unfolding text_part
part_texts nil = []
part_texts (cons (object ms) xs) = text_part (field ms (codes "text")) ++ part_texts xs
part_texts (cons _ xs) = part_texts xs

-- the content is `None`, a text, or a list of parts
unfoldable pub message_text : Json → Text
unfolding part_texts
message_text (string s) = s
message_text (array xs) = join_spaces (part_texts xs)
message_text _ = []

module _ (host : Host) where
  unfoldable pub assistant_content : Json → Text
  assistant_content (string s) = s
  assistant_content v = host.dumps v

  pair_of : Json → List (Json × Json)
  pair_of (object ms) = (field ms (codes "content"), field ms (codes "role")) ∷ []
  pair_of _ = []

  pairs_of : Elements → List (Json × Json)
  unfolding pair_of
  pairs_of nil = []
  pairs_of (cons v xs) = pair_of v ++ pairs_of xs

  -- request_hash(model, typed_messages) == digest
  hashes_to : Text → Json → Json → Bool
  unfolding pairs_of
  hashes_to digest (string model) (array messages) =
      text_eq (host.request_hash model (pairs_of messages)) digest
  hashes_to digest _ _ = false

  is_digest : Text → Json → Bool
  is_digest digest (string s) = text_eq s digest
  is_digest digest _ = false

  -- a file that is the fixture for the digest
  unfoldable pub is_fixture : Text → Json → Bool
  unfolding hashes_to is_digest
  is_fixture digest (object ms) =
      if is_digest digest (field ms (codes "hash"))
      then true
      else hashes_to digest (field ms (codes "model")) (field ms (codes "messages"))
  is_fixture digest _ = false

  named_fixture : Text → List (Text × Json) → Option Json
  named_fixture digest [] = none
  named_fixture digest ((name, v) ∷ files) =
      if text_eq name digest then some v else named_fixture digest files

  search_fixture : Text → List (Text × Json) → Option Json
  unfolding is_fixture
  search_fixture digest [] = none
  search_fixture digest ((name, v) ∷ files) =
      if is_fixture digest v then some v else search_fixture digest files

  first_of : Option Json → Option Json → Json
  unfolding unwrap_fixture
  first_of (some v) next = unwrap_fixture v
  first_of none (some v) = unwrap_fixture v
  first_of none none = null

  -- the fixture; `None` is null
  unfoldable pub lookup_fixture : Text → Option (List (Text × Json)) → Json
  unfolding named_fixture search_fixture first_of
  lookup_fixture digest none = null
  lookup_fixture digest (some files) =
      first_of (named_fixture digest files) (search_fixture digest files)

  -- `default_from_schema` with fuel above the depth of the schema
  unfoldable pub schema_value : Option Members → Json
  unfolding default_from_schema
  schema_value none = placeholder
  schema_value (some ms) = default_from_schema host.numbers (suc (depth_members ms)) ms

  -- the content of the answer: the fixture, or a value for the schema
  unfoldable pub content_of : Json → Option Members → Text
  unfolding assistant_content schema_value
  content_of null schema = assistant_content (schema_value schema)
  content_of fixture schema = assistant_content fixture

  dumped : ChatMessage → Json × Json
  dumped message = (message.content, string message.role)

  unfoldable pub digest_of : ChatCompletionRequest → Text
  unfolding dumped
  digest_of body = host.request_hash body.model (map dumped body.messages)

  unfoldable pub prompt_of : ChatCompletionRequest → Text
  unfolding message_text
  prompt_of body = join_spaces (map (λ m. message_text m.content) body.messages)

  unfoldable pub completion_response : ChatCompletionRequest → Text → Answer
  unfolding count_tokens digest_of prompt_of
  completion_response body content =
      let prompt_tokens = count_tokens (prompt_of body) in
      let completion_tokens = count_tokens content in
      completed record {
        id = codes "chatcmpl-" ++ take 24 (digest_of body);
        model = body.model;
        content = content;
        prompt_tokens = prompt_tokens;
        completion_tokens = completion_tokens;
        total_tokens = prompt_tokens + completion_tokens;
      }

  -- Retry-After is set for a 429
  error_answer : ServiceState → ℕ → Text → Answer
  error_answer state status code =
      openai_error status code (if status == 429 then some (show state.retry_after_s) else none)

  respond : ℕ → Answer → Response
  respond waits answer = record { waits = waits; answer = answer }

  -- behind the modes that answer by themselves
  served : ServiceState → ChatCompletionRequest → Answer
  unfolding content_of completion_response lookup_fixture
  served state body =
      completion_response body
        (content_of (lookup_fixture (digest_of body) state.fixtures_dir) body.schema)

  answer_in : AdminMode → ServiceState → ChatCompletionRequest → Response
  unfolding error_answer respond served
  answer_in server_error state body = respond 0 (error_answer state 500 (codes "internal_error"))
  answer_in rate_limited state body =
      respond 0 (error_answer state 429 (codes "rate_limit_exceeded"))
  answer_in timeout state body = respond state.timeout_seconds (served state body)
  answer_in invalid_json state body = respond 0 (completion_response body (codes "not-json{"))
  answer_in normal state body = respond 0 (served state body)

  unfoldable pub chat_completions : ServiceState → ChatCompletionRequest → Response
  unfolding answer_in
  chat_completions state body = answer_in state.mode state body

-- `set_mode` of the administration
unfoldable pub set_mode : AdminMode → ServiceState → ServiceState
set_mode mode state = record state { mode = mode }
