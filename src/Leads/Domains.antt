-- ===== src/Leads/Domains.antt =====
-- The domain of an address, of a website and of a company, and the lists of domains.
pub mod Hosts
use n8n_production_systems.Regex.{among}
use n8n_production_systems.Text.{Text, CharDb, codes, is_empty, starts_with}
use n8n_production_systems.Text.Strip.{strip}
use n8n_production_systems.Text.Lines.{lines}
use n8n_production_systems.Common.{
  ℕ, Bool, not, ◌&&◌, ◌==◌, Option, none, some, if◌then◌else◌, List, [], ◌∷◌, drop, length,
}

-- text.rsplit("@", 1)[-1]
unfoldable pub last_part : Text → Text
last_part [] = []
last_part (c ∷ s) = if among s b'@' then last_part s else if c == b'@' then s else c ∷ s

-- text.split(separator, 1)[0]
unfoldable pub before : ℕ → Text → Text
before separator [] = []
before separator (c ∷ s) = if c == separator then [] else c ∷ before separator s

-- if text.startswith(prefix): text = text[len(prefix):]
unfoldable pub without_prefix : Text → Text → Text
without_prefix prefix s = if starts_with prefix s then drop (length prefix) s else s

-- the domain of the address, unless everybody has it
unfoldable pub own_domain : Option Text → Bool → Option Text
own_domain none is_free_mail = none
own_domain (some domain) is_free_mail =
    if not (is_empty domain) && not is_free_mail then some domain else none

module _ (chars : CharDb) where
  -- the host of a website
  unfoldable pub host_of : Text → Text
  unfolding before without_prefix
  host_of website =
      let bare = chars.lower (strip chars website) in
      let address = without_prefix (codes "http://") (without_prefix (codes "https://") bare) in
      without_prefix (codes "www.") (before b':' (before b'/' address))

  unfoldable pub company_domain : Option Text → Option Text → Bool → Option Text
  unfolding host_of own_domain
  company_domain none email_domain is_free_mail = own_domain email_domain is_free_mail
  company_domain (some []) email_domain is_free_mail = own_domain email_domain is_free_mail
  company_domain (some (c ∷ s)) email_domain is_free_mail =
      let host = host_of (c ∷ s) in
      if is_empty host then own_domain email_domain is_free_mail else some host

-- an entry of the list: no empty line and no comment
unfoldable pub is_entry : Text → Bool
is_entry s = not (is_empty s) && not (starts_with (codes "#") s)

module _ (chars : CharDb) where
  unfoldable pub entries : List Text → List Text
  unfolding is_entry
  entries [] = []
  entries (line ∷ rest) =
      let stripped = chars.lower (strip chars line) in
      let more = entries rest in if is_entry stripped then stripped ∷ more else more

  -- `_load_domain_list`, of the text of the file
  unfoldable pub load_domain_list : Text → List Text
  unfolding entries
  load_domain_list s = entries (lines s)
