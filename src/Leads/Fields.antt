-- ===== src/Leads/Fields.antt =====
-- What the normalised fields of a lead are like.
pub mod Hosts
use n8n_production_systems.Regex.{among}
use n8n_production_systems.Text.{Text, CharDb, codes, is_empty, text_eq}
use n8n_production_systems.Text.Lines.{lines}
use n8n_production_systems.Text.Equality.{text_eq_refl}
use n8n_production_systems.Text.Contains.{is_member}
use n8n_production_systems.Text.Strip.{strip}
use n8n_production_systems.Leads.{
  Libraries, NormalizeInput, NormalizeResult, Email, normalize_email, to_e164, is_listed,
  normalize_lead,
}
use n8n_production_systems.Leads.Domains.{load_domain_list, is_entry, entries}
use n8n_production_systems.Leads.Language.{language_hint, guess, allowed}
use n8n_production_systems.Common.{
  ◌≡◌, refl, Bool, true, false, not, Option, none, some, if◌then◌else◌, List, [], ◌∷◌, ◌++◌, All,
  Bool-cases, inl, inr, arith, Option-cases, ◌&&◌, ◌||◌,
}

one_allowed :
    (a b : Bool)
    → is_member (if a then codes "sv" else if b then codes "fi" else codes "other") allowed ≡ true
unfolding is_member text_eq
one_allowed true b = refl
one_allowed false true = refl
one_allowed false false = refl

guess-allowed :
    (chars : CharDb) (name : Text) (message : Option Text)
    → is_member (guess chars name message) allowed ≡ true
unfolding guess
guess-allowed chars name message = one_allowed _ _

-- The language of a lead is one of the four that the program knows.
pub language_hint-allowed :
    (chars : CharDb) (explicit : Option Text) (name : Text) (message : Option Text)
    → is_member (language_hint chars explicit name message) allowed ≡ true
unfolding language_hint
language_hint-allowed chars none name message = guess-allowed chars name message
language_hint-allowed chars (some []) name message = guess-allowed chars name message
language_hint-allowed chars (some (c ∷ s)) name message =
    let value = chars.lower (strip chars (c ∷ s)) in
    elim (Bool-cases (is_member value allowed)) [
      | inl known ↦ rw (known, known) refl
      | inr unknown ↦ rw unknown (guess-allowed chars name message)
    ]

entries-All : (chars : CharDb) (ls : List Text) → All (λ d. is_entry d ≡ true) (entries chars ls)
unfolding entries
entries-All chars [] = tt
entries-All chars (line ∷ ls) = elim (Bool-cases (is_entry (chars.lower (strip chars line)))) [
  | inl entry ↦ rw entry (entry, entries-All chars ls)
  | inr other ↦ rw other (entries-All chars ls)
]

-- The entries of a list of domains are no empty texts and no comments.
pub load_domain_list-All :
    (chars : CharDb) (s : Text) → All (λ d. is_entry d ≡ true) (load_domain_list chars s)
unfolding load_domain_list
load_domain_list-All chars s = entries-All chars (lines s)

is_member-append :
    (s : Text) (a b : List Text) → is_member s (a ++ b) ≡ (is_member s a || is_member s b)
unfolding is_member
is_member-append s [] b = refl
is_member-append s (t ∷ a) b = ground (arith, is_member-append s a b)

-- The errors about an address and about a phone number.
abbrev pub about_email : List Text → Bool
about_email errors =
    is_member (codes "email_missing") errors || is_member (codes "email_invalid") errors

abbrev pub about_phone : List Text → Bool
about_phone errors = is_member (codes "phone_invalid") errors

-- A phone number is given.
abbrev pub is_given : CharDb → Option Text → Bool
is_given chars none = false
is_given chars (some raw) = not (is_empty (strip chars raw))

abbrev pub is_none : Option Text → Bool
is_none none = true
is_none (some s) = false

module _ (lib : Libraries) where
  email_errors :
      (mx_check : Bool) (raw : Text)
      → ((normalize_email lib mx_check raw).valid
          ≡ not (about_email ((normalize_email lib mx_check raw).errors)))
        × (about_phone ((normalize_email lib mx_check raw).errors) ≡ false)
  unfolding normalize_email is_member text_eq
  email_errors mx_check raw = elim (Bool-cases (is_empty (strip lib.chars raw))) [
    | inl blank ↦ rw blank (refl, refl)
    | inr full ↦ elim (Option-cases (lib.validate_email mx_check (strip lib.chars raw))) [
      | inl bad ↦ rw (full, bad) (refl, refl)
      | inr (address, good) ↦ rw (full, good) (refl, refl)
    ]
  ]

  phone_errors :
      (phone : Option Text)
      → (about_phone ((to_e164 lib phone).1)
          ≡ (is_given lib.chars phone && is_none ((to_e164 lib phone).0)))
        × (about_email ((to_e164 lib phone).1) ≡ false)
  unfolding to_e164 is_member text_eq
  phone_errors none = (refl, refl)
  phone_errors (some raw) = elim (Bool-cases (is_empty (strip lib.chars raw))) [
    | inl blank ↦ rw blank (refl, refl)
    | inr full ↦ elim (Option-cases (lib.parse (strip lib.chars raw))) [
      | inl bad ↦ rw (full, bad) (refl, refl)
      | inr (parsed, good) ↦ elim (Bool-cases (lib.is_possible_number parsed)) [
        | inl possible ↦ rw (full, good, possible) (refl, refl)
        | inr short ↦ rw (full, good, short) (refl, refl)
      ]
    ]
  ]

-- An address is valid exactly if the errors name none about an address, and the errors name the
-- phone number exactly if one is given and none comes out.
pub normalize_lead-errors :
    (lib : Libraries) (mx_check : Bool) (inp : NormalizeInput)
    → ((normalize_lead lib mx_check inp).email_valid
        ≡ not (about_email ((normalize_lead lib mx_check inp).errors)))
      × (about_phone ((normalize_lead lib mx_check inp).errors) ≡ (
          is_given lib.chars inp.phone && is_none ((normalize_lead lib mx_check inp).phone_e164)))
unfolding normalize_lead
normalize_lead-errors lib mx_check inp =
    let (valid, no_phone) = email_errors lib mx_check inp.email in
    let (phone, no_email) = phone_errors lib inp.phone in
    let email = (normalize_email lib mx_check inp.email).errors in
    let more = (to_e164 lib inp.phone).1 in
    ground (
      arith,
      is_member-append (codes "email_missing") email more,
      is_member-append (codes "email_invalid") email more,
      is_member-append (codes "phone_invalid") email more,
    )
