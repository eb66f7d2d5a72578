-- ===== src/Leads/Tests.antt =====
-- The theorems at one lead. The libraries take every address that is given to them, and every
-- number that starts with a plus.
use n8n_production_systems.Text.{Text, codes, starts_with}
use n8n_production_systems.Text.Ascii.{ascii}
use n8n_production_systems.Text.Contains.{is_member}
use n8n_production_systems.Leads.{Libraries, NormalizeInput, normalize_lead, is_listed}
use n8n_production_systems.Leads.Domains.{
  company_domain as domain_of, load_domain_list, is_entry, entries, before, host_of, without_prefix,
}
use n8n_production_systems.Leads.Language.{language_hint, allowed}
use n8n_production_systems.Leads.Fields.{
  language_hint-allowed, normalize_lead-errors, about_email, about_phone, is_given, is_none,
}
use n8n_production_systems.Leads.Domains.Hosts.{IsHostOf}
use n8n_production_systems.Leads.Fields.Hosts.{
  normalize_lead-company_domain, HasNoHost, IsOwnDomain,
}
use n8n_production_systems.Common.{◌≡◌, refl, true, false, not, none, some, [], ◌∷◌, ◌&&◌, ◌⊎◌}
use n8n_production_systems.Text.Lines.{lines, unix}
use n8n_production_systems.Text.Strip.{strip, lstrip}

abbrev free_mail : Text
free_mail = codes "# free\nGmail.com\n\n"

abbrev libraries : Libraries
libraries = record {
  chars = ascii;
  validate_email = λ mx_check s. some s;
  Number = Text;
  parse = λ s. some s;
  is_possible_number = λ s. starts_with (codes "+") s;
  format_number = λ s. s;
  free_mail_domains = codes "gmail.com" ∷ [];
  disposable_domains = [];
}

abbrev lead : NormalizeInput
lead = record {
  email = codes " Ann@Acme.fi";
  name = codes "Ann";
  company_name = none;
  phone = some (codes "040");
  language = some (codes "SV");
  country = none;
  website = some (codes "https://www.Acme.fi:80/x");
  message = none;
}

acme_host : (normalize_lead libraries false lead).company_domain ≡ some (codes "acme.fi")
unfolding normalize_lead domain_of host_of before without_prefix strip lstrip starts_with
acme_host = refl

free_mail_loaded : load_domain_list ascii free_mail ≡ codes "gmail.com" ∷ []
unfolding load_domain_list entries is_entry lines unix strip lstrip starts_with
free_mail_loaded = refl

language_hint-allowed_example :
    is_member (language_hint ascii (some (codes "SV")) (codes "Ann") none) allowed ≡ true
language_hint-allowed_example = language_hint-allowed ascii (some (codes "SV")) (codes "Ann") none

normalize_lead-errors_example :
    ((normalize_lead libraries false lead).email_valid
      ≡ not (about_email ((normalize_lead libraries false lead).errors)))
    × (about_phone ((normalize_lead libraries false lead).errors)
        ≡ (is_given ascii lead.phone && is_none ((normalize_lead libraries false lead).phone_e164)))
normalize_lead-errors_example = normalize_lead-errors libraries false lead

normalize_lead-company_domain_example :
    ((w : Text) × (lead.website ≡ some w) × IsHostOf ascii w (codes "acme.fi"))
    ⊎ (HasNoHost ascii lead.website
        × IsOwnDomain libraries
            (normalize_lead libraries false lead).email_normalized
            (codes "acme.fi")
        × (is_listed libraries (some (codes "acme.fi")) libraries.free_mail_domains ≡ false)
        × ((normalize_lead libraries false lead).is_free_mail ≡ false))
normalize_lead-company_domain_example =
    normalize_lead-company_domain libraries false lead (codes "acme.fi") acme_host
