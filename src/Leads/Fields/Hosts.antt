-- ===== src/Leads/Fields/Hosts.antt =====
-- The domain of a company.
use n8n_production_systems.Text.{Text, CharDb, is_empty}
use n8n_production_systems.Text.Strip.{strip}
use n8n_production_systems.Leads.{
  Libraries, NormalizeInput, is_listed, normalize_lead, normalize_email, judge_email, refused,
  accepted, missing,
}
use n8n_production_systems.Leads.Domains.{last_part, host_of, own_domain, company_domain}
use n8n_production_systems.Common.{
  ◌≡◌, refl, Bool, false, Option, none, some, [], ◌∷◌, Bool-cases, inl, inr, arith, ◌⊎◌, subst, ap,
  sym, ◌∙◌,
}
use n8n_production_systems.Leads.Domains.Hosts.{
  IsHostOf, IsDomainOf, empty_text, host_of-IsHostOf, last_part-IsDomainOf,
}

own_domain_cases :
    (d : Option Text) (free : Bool) (domain : Text)
    → own_domain d free ≡ some domain
    → (d ≡ some domain) × (free ≡ false)
unfolding own_domain
own_domain_cases none free domain h = cc
own_domain_cases (some d) free domain h = ground arith

-- The website is missing, or names no host.
abbrev pub HasNoHost : CharDb → Option Text → Type 0
HasNoHost chars website =
    (website ≡ none) ⊎ (website ≡ some []) ⊎ ((w : Text) × (website ≡ some w) × IsHostOf chars w [])

company_domain_cases :
    (chars : CharDb) (website d : Option Text) (free : Bool) (domain : Text)
    → company_domain chars website d free ≡ some domain
    → ((w : Text) × (website ≡ some w) × IsHostOf chars w domain)
      ⊎ (HasNoHost chars website × (d ≡ some domain) × (free ≡ false))
unfolding company_domain
company_domain_cases chars none d free domain h =
    let (own, paid) = own_domain_cases d free domain h in inr (inl refl, own, paid)
company_domain_cases chars (some []) d free domain h =
    let (own, paid) = own_domain_cases d free domain h in inr (inr (inl refl), own, paid)
company_domain_cases chars (some (c ∷ s)) d free domain h =
    let host = host_of-IsHostOf chars (c ∷ s) in
    elim (Bool-cases (is_empty (host_of chars (c ∷ s)))) [
      | inl none_there ↦
          let nothing : host_of chars (c ∷ s) ≡ [] =
            empty_text (host_of chars (c ∷ s)) none_there in
          let (own, paid) = own_domain_cases d free domain (ground arith) in
          inr (inr (inr (c ∷ s, refl, subst (IsHostOf chars (c ∷ s)) nothing host)), own, paid)
      | inr found ↦
          let same : host_of chars (c ∷ s) ≡ domain = ground arith in
          inl (c ∷ s, refl, subst (IsHostOf chars (c ∷ s)) same host)
    ]

-- The domain of an address that was normalised is what stands behind its last `@`.
module _ (lib : Libraries) where
  -- in small letters once more, where the library took the address
  abbrev pub IsOwnDomain : Text → Text → Type 0
  IsOwnDomain address domain =
      (part : Text) × IsDomainOf address part × ((domain ≡ part) ⊎ (domain ≡ lib.chars.lower part))

  judge_email-IsOwnDomain :
      (candidate : Text) (taken : Option Text) (domain : Text)
      → (judge_email lib candidate taken).domain ≡ some domain
      → IsOwnDomain (judge_email lib candidate taken).normalized domain
  unfolding judge_email refused accepted
  judge_email-IsOwnDomain candidate none domain h =
      let lowered = lib.chars.lower candidate in
      (last_part lowered, last_part-IsDomainOf lowered, inl (ground arith))
  judge_email-IsOwnDomain candidate (some address) domain h =
      let normalized = lib.chars.lower address in
      (last_part normalized, last_part-IsDomainOf normalized, inr (ground arith))

  normalize_email-IsOwnDomain :
      (mx_check : Bool) (raw domain : Text)
      → (normalize_email lib mx_check raw).domain ≡ some domain
      → IsOwnDomain (normalize_email lib mx_check raw).normalized domain
  unfolding normalize_email missing
  normalize_email-IsOwnDomain mx_check raw domain h =
      let candidate = strip lib.chars raw in
      let taken = lib.validate_email mx_check candidate in
      elim (Bool-cases (is_empty candidate)) [
        | inl nothing ↦ absurd (ground arith)
        | inr given ↦
            let same : normalize_email lib mx_check raw ≡ judge_email lib candidate taken =
              rw given refl in
            subst (λ email. IsOwnDomain email.normalized domain) (sym same)
              (judge_email-IsOwnDomain candidate taken domain
                (ap (λ email. email.domain) (sym same) ∙ h))
      ]

-- The domain of a company is the host of its website: the text of the website in small letters
-- without the scheme, the path, the port and `www.`. Where there is no website, or one without a host,
-- it is what stands behind the last `@` of the normalised address, as it is or in small letters; then
-- it is not listed as the domain of a free mail service.
pub normalize_lead-company_domain :
    (lib : Libraries) (mx_check : Bool) (inp : NormalizeInput) (domain : Text)
    → (normalize_lead lib mx_check inp).company_domain ≡ some domain
    → ((w : Text) × (inp.website ≡ some w) × IsHostOf lib.chars w domain)
      ⊎ (HasNoHost lib.chars inp.website
          × IsOwnDomain lib (normalize_lead lib mx_check inp).email_normalized domain
          × (is_listed lib (some domain) lib.free_mail_domains ≡ false)
          × ((normalize_lead lib mx_check inp).is_free_mail ≡ false))
unfolding normalize_lead
normalize_lead-company_domain lib mx_check inp domain h =
    elim (company_domain_cases lib.chars inp.website _ _ domain h) [
      | inl host ↦ inl host
      | inr (no_host, own, paid) ↦ inr (
        no_host,
        normalize_email-IsOwnDomain lib mx_check inp.email domain own,
        subst (λ d. is_listed lib d lib.free_mail_domains ≡ false) own paid,
        paid,
      )
    ]
