-- ===== src/Workflows/Sanitize/Secrets.antt =====
-- `find_secret_matches` of scripts/sanitize_workflows.py: the texts of a document that look like a
-- secret.
use n8n_production_systems.Json.{
  Json, null, boolean, integer, float, string, array, object, Elements, nil, cons, Members, end,
  member,
}
use n8n_production_systems.Regex.{
  Pattern, Item, one, many, boundary, Class, literal, literal_i, times, at_least, among,
  is_letter_or_digit, is_capital_or_digit, is_word, search,
}
use n8n_production_systems.Text.{Text, CharDb, codes, is_upper_letter}
use n8n_production_systems.Text.Contains.{is_member, letter_eq}
use n8n_production_systems.Common.{
  false, ◌||◌, ◌==◌, if◌then◌else◌, List, [], ◌∷◌, ◌++◌, map, String, take,
}

-- A match that is reported: the name of the pattern, and the first characters of the text.
abbrev pub Hit : Type 0
Hit = Text × Text

unfoldable mutual
  pub collect_strings : Json → List Text
  collect_strings null = []
  collect_strings (boolean b) = []
  collect_strings (integer n) = []
  collect_strings (float n) = []
  collect_strings (string s) = s ∷ []
  collect_strings (array xs) = collect_elements xs
  collect_strings (object ms) = collect_members ms

  pub collect_elements : Elements → List Text
  collect_elements nil = []
  collect_elements (cons x xs) = collect_strings x ++ collect_elements xs

  pub collect_members : Members → List Text
  collect_members end = []
  collect_members (member key item ms) = collect_strings item ++ collect_members ms

private_key : Pattern
private_key =
    (literal "-----BEGIN "
      ++ many (λ c. is_upper_letter c || c == b' ') ∷ literal "PRIVATE KEY-----")
    ∷ []

aws_prefix : List Item → List Item
aws_prefix prefix = boundary ∷ prefix ++ times 16 is_capital_or_digit ++ boundary ∷ []

aws_access_key : Pattern
unfolding aws_prefix
aws_access_key =
    aws_prefix (literal "A3T" ++ one is_capital_or_digit ∷ [])
    ∷ map (λ prefix. aws_prefix (literal prefix))
        ("AKIA" ∷ "AGPA" ∷ "AIDA" ∷ "AROA" ∷ "AIPA" ∷ "ANPA" ∷ "ANVA" ∷ "ASIA" ∷ [])

github_pat : Pattern
github_pat =
    (boundary ∷ literal "gh"
      ++ one (among (codes "pousr")) ∷ literal "_"
      ++ times 36 is_letter_or_digit
      ++ boundary ∷ [])
    ∷ []

github_fine_grained : Pattern
github_fine_grained =
    (boundary ∷ literal "github_pat_"
      ++ at_least 20 (λ c. is_letter_or_digit c || c == b'_')
      ++ boundary ∷ [])
    ∷ []

gitlab_pat : Pattern
gitlab_pat =
    (boundary ∷ literal "glpat-"
      ++ at_least 20 (λ c. is_letter_or_digit c || among (codes "_-") c)
      ++ boundary ∷ [])
    ∷ []

stripe_prefix : String → List Item
stripe_prefix prefix = boundary ∷ literal prefix ++ at_least 16 is_letter_or_digit ++ boundary ∷ []

stripe_key : Pattern
unfolding stripe_prefix
stripe_key =
    map stripe_prefix
      ("sk_live_" ∷ "pk_live_" ∷ "rk_live_" ∷ "sk_test_" ∷ "pk_test_" ∷ "rk_test_" ∷ [])

openai_sk : Pattern
openai_sk = (boundary ∷ literal "sk-" ++ at_least 16 is_letter_or_digit ++ boundary ∷ []) ∷ []

-- [baprs] under re.I
among_i : Text → Class
among_i [] c = false
among_i (d ∷ ds) c = letter_eq d c || among_i ds c

module _ (chars : CharDb) where
  slack_xox : Pattern
  unfolding among_i
  slack_xox =
      (boundary ∷ literal_i "xox"
        ++ one (among_i (codes "baprs")) ∷ literal "-"
        ++ at_least 10 (λ c. is_word chars c || c == b'-')
        ++ boundary ∷ [])
      ∷ []

  bearer_token : Pattern
  bearer_token =
      (boundary ∷ literal "Bearer"
        ++ at_least 1 chars.is_space
        ++ at_least 24 (λ c. is_letter_or_digit c || among (codes "._-+=/") c))
      ∷ []

  unfoldable pub secret_patterns : List (Text × Pattern)
  unfolding private_key aws_access_key github_pat github_fine_grained gitlab_pat stripe_key
      openai_sk slack_xox bearer_token
  secret_patterns =
      (codes "private-key-header", private_key)
      ∷ (codes "aws-access-key", aws_access_key)
      ∷ (codes "github-pat", github_pat)
      ∷ (codes "github-fine-grained", github_fine_grained)
      ∷ (codes "gitlab-pat", gitlab_pat)
      ∷ (codes "stripe-key", stripe_key)
      ∷ (codes "openai-sk", openai_sk)
      ∷ (codes "slack-xox", slack_xox)
      ∷ (codes "bearer-token", bearer_token)
      ∷ []

  -- f"{name}:{text[:12]}"
  key_of : Text → Text → Text
  key_of name s = name ++ codes ":" ++ take 12 s

  -- the loop over the patterns for one text: the keys that are seen, and the matches
  unfoldable pub hits_of : List (Text × Pattern) → Text → List Text → List Text × List Hit
  unfolding key_of
  hits_of [] s seen = (seen, [])
  hits_of ((name, pattern) ∷ patterns) s seen =
      let skipped = hits_of patterns s seen in
      let rest = hits_of patterns s (key_of name s ∷ seen) in
      if search chars pattern s
      then (if is_member (key_of name s) seen
          then skipped
          else (rest.0, (name, take 12 s) ∷ rest.1))
      else skipped

  unfoldable pub hits_from : List Text → List Text → List Hit
  unfolding hits_of secret_patterns
  hits_from [] seen = []
  hits_from (s ∷ texts) seen =
      let found = hits_of secret_patterns s seen in found.1 ++ hits_from texts found.0

  unfoldable pub find_secret_matches : Json → List Hit
  unfolding hits_from collect_strings
  find_secret_matches value = hits_from (collect_strings value) []
