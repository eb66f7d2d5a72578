-- ===== src/Workflows/Sanitize.antt =====
-- scripts/sanitize_workflows.py: the keys that a document loses, and the refusal of secrets.
pub mod Secrets
pub mod Command
pub mod Laws
use n8n_production_systems.Json.{
  Json, null, boolean, integer, float, string, array, object, Elements, nil, cons, Members, end,
  member, is_string,
}
use n8n_production_systems.Text.{Text, CharDb, codes, text_eq, is_empty}
use n8n_production_systems.Text.Contains.{is_member}
use n8n_production_systems.Common.{
  Bool, true, false, not, ◌&&◌, ◌||◌, if◌then◌else◌, List, [], ◌∷◌, ◌++◌, Outcome, ok, raises,
  sanitize_error, drop, length, ltb, ◌-◌,
}
use Secrets.{find_secret_matches}

abbrev pub drop_keys : List Text
drop_keys =
    codes "pinData"
    ∷ codes "staticData"
    ∷ codes "executionId"
    ∷ codes "executionIds"
    ∷ codes "lastExecution"
    ∷ codes "lastExecutionStatus"
    ∷ []

-- text.endswith(suffix)
unfoldable pub ends_with : Text → Text → Bool
ends_with suffix s =
    if ltb (length s) (length suffix)
    then false
    else text_eq (drop (length s - length suffix) s) suffix

-- f"{path}.{key}" if path else key
unfoldable pub child_path : Text → Text → Text
child_path path key = if is_empty path then key else path ++ codes "." ++ key

is_meta : Text → Bool
unfolding ends_with
is_meta path = text_eq path (codes "meta") || ends_with (codes ".meta") path

-- the three guards of `_strip` that leave an item out
unfoldable pub is_dropped : Text → Text → Json → Bool
unfolding is_meta
is_dropped path key item =
    is_member key drop_keys
    || (text_eq key (codes "instanceId") && is_meta path)
    || (text_eq key (codes "execution") && not (is_string item))

unfoldable mutual
  pub strip_value : Text → Json → Json
  strip_value path null = null
  strip_value path (boolean b) = boolean b
  strip_value path (integer n) = integer n
  strip_value path (float n) = float n
  strip_value path (string s) = string s
  strip_value path (array xs) = array (strip_elements path xs)
  strip_value path (object ms) = object (strip_members path ms)

  pub strip_elements : Text → Elements → Elements
  strip_elements path nil = nil
  strip_elements path (cons x xs) = cons (strip_value path x) (strip_elements path xs)

  pub strip_members : Text → Members → Members
  strip_members path end = end
  strip_members path (member key item ms) =
      if is_dropped path key item
      then strip_members path ms
      else member key (strip_value (child_path path key) item) (strip_members path ms)

module _ (chars : CharDb) where
  unfoldable pub sanitize_document : Json → Outcome Json
  unfolding find_secret_matches strip_value
  sanitize_document value =
      if is_empty (find_secret_matches chars value)
      then ok (strip_value [] value)
      else raises sanitize_error
