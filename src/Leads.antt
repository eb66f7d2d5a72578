-- ===== src/Leads.antt =====
-- projects/p01-lead-qualification/backend/src/p01_backend/normalize.py: the fields of a lead. The
-- libraries email_validator and phonenumbers are parameters, as are the two lists of domains.
pub mod Domains
pub mod Language
pub mod Fields
mod Tests
use n8n_production_systems.Text.{Text, CharDb, codes, is_empty, or_empty}
use n8n_production_systems.Text.Strip.{strip}
use n8n_production_systems.Text.Contains.{is_member, is_in}
use n8n_production_systems.Common.{
  Bool, true, false, not, ◌&&◌, ◌||◌, Option, none, some, if◌then◌else◌, List, [], ◌∷◌, ◌++◌,
}
use Domains.{last_part, company_domain}
use Language.{language_hint}

-- `validate_email` gives the normalised address, or none where it raises `EmailNotValidError`;
-- `parse` gives none where it raises `NumberParseException`.
pub record Libraries : Type 1 where
  pub chars : CharDb
  pub validate_email : Bool → Text → Option Text
  pub Number : Type 0
  pub parse : Text → Option Number
  pub is_possible_number : Number → Bool
  pub format_number : Number → Text
  pub free_mail_domains : List Text
  pub disposable_domains : List Text

pub record NormalizeInput : Type 0 where
  pub email : Text
  pub name : Text
  pub company_name : Option Text
  pub phone : Option Text
  pub language : Option Text
  pub country : Option Text
  pub website : Option Text
  pub message : Option Text

pub record NormalizeResult : Type 0 where
  pub email_normalized : Text
  pub email_valid : Bool
  pub name : Text
  pub company_name : Option Text
  pub company_domain : Option Text
  pub is_free_mail : Bool
  pub is_disposable : Bool
  pub phone_e164 : Option Text
  pub language : Text
  pub country : Option Text
  pub errors : List Text

-- What `_normalize_email` returns, and what it appends to the errors.
pub record Email : Type 0 where
  pub normalized : Text
  pub valid : Bool
  pub domain : Option Text
  pub errors : List Text

module _ (lib : Libraries) where
  -- value.strip() if value else None
  strip_optional : Option Text → Option Text
  strip_optional none = none
  strip_optional (some []) = none
  strip_optional (some (c ∷ s)) = some (strip lib.chars (c ∷ s))

  -- the address that the library refuses
  refused : Text → Email
  refused candidate =
      let lowered = lib.chars.lower candidate in
      record {
        normalized = lowered;
        valid = false;
        domain = if is_in (codes "@") lowered then some (last_part lowered) else none;
        errors = codes "email_invalid" ∷ [];
      }

  accepted : Text → Email
  accepted address =
      let normalized = lib.chars.lower address in
      record {
        normalized = normalized;
        valid = true;
        domain = some (lib.chars.lower (last_part normalized));
        errors = [];
      }

  judge_email : Text → Option Text → Email
  unfolding refused accepted
  judge_email candidate none = refused candidate
  judge_email candidate (some address) = accepted address

  missing : Email
  missing = record {
    normalized = [];
    valid = false;
    domain = none;
    errors = codes "email_missing" ∷ [];
  }

  unfoldable pub normalize_email : Bool → Text → Email
  unfolding judge_email missing
  normalize_email mx_check raw =
      let candidate = strip lib.chars raw in
      if is_empty candidate
      then missing
      else judge_email candidate (lib.validate_email mx_check candidate)

  -- bool(email_domain and email_domain in domains)
  unfoldable pub is_listed : Option Text → List Text → Bool
  is_listed none domains = false
  is_listed (some domain) domains = not (is_empty domain) && is_member domain domains

  invalid_phone : Option Text × List Text
  invalid_phone = (none, codes "phone_invalid" ∷ [])

  judge_phone : Option lib.Number → Option Text × List Text
  unfolding invalid_phone
  judge_phone none = invalid_phone
  judge_phone (some parsed) =
      if lib.is_possible_number parsed then (some (lib.format_number parsed), []) else invalid_phone

  -- the number, and what is appended to the errors
  unfoldable pub to_e164 : Option Text → Option Text × List Text
  unfolding judge_phone
  to_e164 none = (none, [])
  to_e164 (some raw) =
      let stripped = strip lib.chars raw in
      if is_empty stripped then (none, []) else judge_phone (lib.parse stripped)

  unfoldable pub normalize_lead : Bool → NormalizeInput → NormalizeResult
  unfolding strip_optional normalize_email is_listed to_e164
  normalize_lead mx_check inp =
      let name = strip lib.chars inp.name in
      let email = normalize_email mx_check inp.email in
      let is_free_mail = is_listed email.domain lib.free_mail_domains in
      let phone = to_e164 inp.phone in
      record {
        email_normalized = email.normalized;
        email_valid = email.valid;
        name = name;
        company_name = strip_optional inp.company_name;
        company_domain = company_domain lib.chars inp.website email.domain is_free_mail;
        is_free_mail = is_free_mail;
        is_disposable = is_listed email.domain lib.disposable_domains;
        phone_e164 = phone.0;
        language = language_hint lib.chars inp.language name inp.message;
        country = strip_optional inp.country;
        errors = email.errors ++ phone.1;
      }
