-- ===== src/Workflows/Lint/Rules.antt =====
-- The rules of scripts/lint_workflows.py about one node: its code, its timeout, its name, and the
-- texts that name an address.
use n8n_production_systems.Json.{
  Json, null, boolean, integer, float, string, array, object, Members, end, field,
}
use n8n_production_systems.Text.{Text, CharDb, codes, is_empty, starts_with}
use n8n_production_systems.Text.Strip.{strip, lstrip}
use n8n_production_systems.Regex.{
  Pattern, many, up_to, boundary, the_end, literal, literal_i, search,
}
use n8n_production_systems.Workflows.Values.{Python, Sign, truth, text_or_empty, is_positive}
use n8n_production_systems.Workflows.Snippets.{body_keys, behind}
use n8n_production_systems.Workflows.Sanitize.{ends_with}
use n8n_production_systems.Common.{
  ℕ, pos, negsuc, Bool, true, false, not, ◌&&◌, ◌||◌, ◌==◌, Option, none, some, if◌then◌else◌, List,
  [], ◌∷◌, ◌++◌, map, String, Outcome, ok, raises, ◌>>=◌, attribute_error, take, length, ◌-◌, ltb,
}

abbrev pub http_request_types : List Text
http_request_types =
    codes "n8n-nodes-base.httpRequest" ∷ codes "n8n-nodes-base.httpRequestTool" ∷ []

-- the names that the canvas gives, and digits behind them
default_names : List String
default_names =
    "HTTP Request" ∷ "Code" ∷ "Set" ∷ "IF" ∷ "If" ∷ "Switch" ∷ "Merge" ∷ "Webhook" ∷ "Edit Fields"
    ∷ "Filter" ∷ "Wait" ∷ "Split Out" ∷ "Split In Batches" ∷ "Schedule Trigger" ∷ "Manual Trigger"
    ∷ "Error Trigger" ∷ "No Operation, do nothing" ∷ "Sticky Note" ∷ "Note" ∷ "Execute Workflow"
    ∷ "Execute Sub-workflow" ∷ []

module _ (chars : CharDb) where
  -- `\d`
  is_decimal : ℕ → Bool
  is_decimal c = elim (chars.decimal c) [ none ↦ false | some d ↦ true ]

  unfoldable pub default_node_name : Pattern
  unfolding default_names is_decimal
  default_node_name = map (λ name. literal name ++ many is_decimal ∷ the_end ∷ []) default_names

literal_http : Pattern
literal_http = literal_i "http://" ∷ literal_i "https://" ∷ []

not_newline : ℕ → Bool
not_newline c = not (c == 10)

-- (lookup|load|get|read|fetch).{0,40}settings|settings.{0,40}(lookup|table|row)
settings_lookup_name : Pattern
unfolding not_newline
settings_lookup_name =
    map (λ verb. literal_i verb ++ up_to 40 not_newline ∷ literal_i "settings")
      ("lookup" ∷ "load" ∷ "get" ∷ "read" ∷ "fetch" ∷ [])
    ++ map (λ noun. literal_i "settings" ++ up_to 40 not_newline ∷ literal_i noun)
        ("lookup" ∷ "table" ∷ "row" ∷ [])

settings_word : Pattern
settings_word = (boundary ∷ literal_i "settings" ++ boundary ∷ []) ∷ []

-- An object has the method `get`; no other value does.
unfoldable pub as_object : Json → Outcome Members
as_object (object ms) = ok ms
as_object _ = raises attribute_error

-- a text, or what comes next
unfoldable pub text_or : Json → Text → Text
text_or (string s) next = s
text_or _ next = next

unfoldable pub code_under : Members → List Text → Text
unfolding text_or
code_under parameters [] = []
code_under parameters (key ∷ keys) = text_or (field parameters key) (code_under parameters keys)

-- value in (None, "")
is_unset : Json → Bool
is_unset null = true
is_unset (string []) = true
is_unset _ = false

under_options : Json → Json → Json
unfolding is_unset
under_options (object options) next =
    if is_unset (field options (codes "timeout")) then next else field options (codes "timeout")
under_options _ next = next

unfoldable pub http_timeout : Members → Json
unfolding under_options
http_timeout parameters =
    let timeout = field parameters (codes "timeout") in
    under_options (field parameters (codes "options")) (if is_unset timeout then null else timeout)

-- float(stripped) > 0, and a text that is no number counts as an expression
number_is_set : Option Sign → Bool
unfolding is_positive
number_is_set none = true
number_is_set (some sign) = is_positive (some sign)

-- The texts that are an expression of n8n.
is_expression : Text → Bool
is_expression s = starts_with (codes "={{") s || starts_with (codes "{{") s

without_equals : Text → Text
without_equals [] = []
without_equals (c ∷ s) = if c == b'=' then s else c ∷ s

-- (.+)\}\}, greedy, up to the end
closed_part : Option Text → Option Text
closed_part none = none
closed_part (some s) =
    if ends_with (codes "}}") s && ltb 2 (length s) then some (take (length s - 2) s) else none

module _ (chars : CharDb) where
  -- The first group of `EXPRESSION_ONLY_RE`. The text is stripped: it ends in no space.
  unfoldable pub expression_body : Text → Option Text
  unfolding without_equals closed_part behind
  expression_body s =
      closed_part (behind (codes "{{") (lstrip chars (without_equals (strip chars s))))

  is_allowed : Option Text → Bool
  unfolding literal_http
  is_allowed none = false
  is_allowed (some body) = not (search chars literal_http body)

  unfoldable pub has_literal_http_url : Text → Bool
  unfolding is_allowed expression_body
  has_literal_http_url s = search chars literal_http s && not (is_allowed (expression_body s))

module _ (py : Python) where
  text_is_set : Text → Bool
  unfolding number_is_set is_expression
  text_is_set s =
      let stripped = strip py.chars s in
      not (is_empty stripped) && (is_expression stripped || number_is_set (py.float_of stripped))

  unfoldable pub is_set_timeout : Json → Bool
  unfolding text_is_set
  is_set_timeout null = false
  is_set_timeout (boolean b) = false
  is_set_timeout (integer (pos n)) = not (n == 0)
  is_set_timeout (integer (negsuc n)) = false
  is_set_timeout (float s) = is_positive (py.float_of s)
  is_set_timeout (string s) = text_is_set s
  is_set_timeout (array xs) = true
  is_set_timeout (object ms) = true

  -- node.get("parameters") or {}
  unfoldable pub parameters_of : Members → Outcome Members
  unfolding truth as_object
  parameters_of node =
      let parameters = field node (codes "parameters") in
      if truth py parameters then as_object parameters else ok end

  unfoldable pub code_body : Members → Outcome Text
  unfolding parameters_of code_under
  code_body node = do parameters ← parameters_of node; ok (code_under parameters body_keys)

  unfoldable pub timeout_is_set : Members → Outcome Bool
  unfolding http_timeout is_set_timeout parameters_of
  timeout_is_set node = do
    parameters ← parameters_of node
    ok (is_set_timeout (http_timeout parameters))

  -- isinstance(query, str) and re.search(r"\bsettings\b", query, re.IGNORECASE)
  names_settings : Json → Bool
  unfolding settings_word
  names_settings (string query) = search py.chars settings_word query
  names_settings _ = false

  -- parameters.get("query") or parameters.get("sql") or ""
  query_of : Members → Json
  query_of parameters =
      let query = field parameters (codes "query") in
      let sql = field parameters (codes "sql") in
      if truth py query then query else if truth py sql then sql else string []

  unfoldable pub is_settings_lookup_node : Members → Outcome Bool
  unfolding settings_lookup_name names_settings query_of parameters_of
  is_settings_lookup_node node =
      if search py.chars settings_lookup_name (text_or_empty py (field node (codes "name")))
      then ok true
      else if ends_with (codes ".postgres") (text_or_empty py (field node (codes "type")))
      then (do parameters ← parameters_of node; ok (names_settings (query_of parameters)))
      else ok false
