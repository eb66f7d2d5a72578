-- ===== src/Review/Auth/Laws.antt =====
-- What a request without the right credentials can do, and what a signature is checked against.
use n8n_production_systems.Text.{Text, CharDb, is_empty, text_eq, all_ascii}
use n8n_production_systems.Text.Equality.{text_eq_iff, text_eq_refl}
use n8n_production_systems.Text.Digest.{compare_digest}
use n8n_production_systems.Review.App.{State, World, handle}
use n8n_production_systems.Review.Auth.{
  Settings, Credentials, Form, require_basic, submit, acted, sign_body, signatures_match,
}
use n8n_production_systems.Common.{
  ◌≡◌, ◌↔◌, refl, true, false, ◌&&◌, length, ok, raises, unauthorized, type_error, Bool-cases, inl,
  inr, arith, ==_refl, ◌⊎◌, sym, Bool, ◌∙◌,
}

-- Texts that can be compared are compared as they are.
compare_digest_plain :
    (a b : Text) → all_ascii a ≡ true → all_ascii b ≡ true → compare_digest a b ≡ ok (text_eq a b)
unfolding compare_digest
compare_digest_plain a b ha hb = rw (ha, hb) refl

-- every text of the credentials and of the settings is ASCII
abbrev pub all_plain : Settings → Credentials → Bool
all_plain settings c =
    (all_ascii c.username && all_ascii settings.review_ui_user)
    && (all_ascii c.password && all_ascii settings.review_ui_password)

-- the name and the password are those of the settings
abbrev pub IsKnown : Settings → Credentials → Type 0
IsKnown settings c =
    (c.username ≡ settings.review_ui_user) × (c.password ≡ settings.review_ui_password)

-- the credentials, as the check takes them
require_basic_cases :
    (settings : Settings) (c : Credentials)
    → ((all_plain settings c ≡ true)
        × IsKnown settings c
        × (require_basic c settings ≡ ok settings.review_ui_actor_id))
      ⊎ ((all_plain settings c ≡ true)
          × (¬ IsKnown settings c)
          × (require_basic c settings ≡ raises unauthorized))
      ⊎ ((all_plain settings c ≡ false) × (require_basic c settings ≡ raises type_error))
unfolding require_basic compare_digest
require_basic_cases settings c =
    let names = text_eq_iff c.username settings.review_ui_user in
    let passwords = text_eq_iff c.password settings.review_ui_password in
    elim (Bool-cases (all_ascii c.username && all_ascii settings.review_ui_user)) [
      | inr odd ↦ inr (inr (rw odd refl, rw odd refl))
      | inl plain ↦
          elim (Bool-cases (all_ascii c.password && all_ascii settings.review_ui_password)) [
            | inr odd ↦ inr (inr (rw (plain, odd) refl, rw (plain, odd) refl))
            | inl also ↦ elim (Bool-cases (text_eq c.username settings.review_ui_user)) [
              | inr other ↦ inr (
                  inl (
                    rw (plain, also) refl,
                    λ known. let wrong : true ≡ false = sym (names.1 known.0) ∙ other in cc,
                    rw (plain, also, other) refl,
                  ))
              | inl user ↦ elim (Bool-cases (text_eq c.password settings.review_ui_password)) [
                | inr other ↦ inr (
                    inl (
                      rw (plain, also) refl,
                      λ known. let wrong : true ≡ false = sym (passwords.1 known.1) ∙ other in cc,
                      rw (plain, also, user, other) refl,
                    ))
                | inl password ↦ inl (
                  rw (plain, also) refl,
                  (names.0 user, passwords.0 password),
                  rw (plain, also, user, password) refl,
                )
              ]
            ]
          ]
    ]

-- Where the name and the password of a request and those of the settings are ASCII: the request is
-- handled in the name of the one actor of the settings if they are the same, and raises a 401 if
-- they are not. Where a text is not ASCII it raises a `TypeError`. What raises changes nothing.
pub submit_lem :
    (chars : CharDb) (settings : Settings) (w : World) (s : State) (c : Credentials) (form : Form)
    → ((all_plain settings c ≡ true)
        × IsKnown settings c
        × (submit chars settings w s c form
            ≡ handle chars w s (record {
              verb = form.verb;
              id = form.id;
              actor = settings.review_ui_actor_id;
              reason = form.reason;
            })))
      ⊎ ((all_plain settings c ≡ true)
          × (¬ IsKnown settings c)
          × (submit chars settings w s c form ≡ (raises unauthorized, s)))
      ⊎ ((all_plain settings c ≡ false)
          × (submit chars settings w s c form ≡ (raises type_error, s)))
unfolding submit acted
submit_lem chars settings w s c form = elim (require_basic_cases settings c) [
  | inl (plain, known, passed) ↦ inl (plain, known, rw passed refl)
  | inr (inl (plain, unknown, refused)) ↦ inr (inl (plain, unknown, rw refused refl))
  | inr (inr (odd, failed)) ↦ inr (inr (odd, rw failed refl))
]

match_same : (e : Text) → is_empty e ≡ false → all_ascii e ≡ true → signatures_match e e ≡ ok true
unfolding signatures_match
match_same e full plain =
    rw (full, ==_refl (length e), compare_digest_plain e e plain plain, text_eq_refl e) refl

match-eq :
    (e p : Text) → all_ascii e ≡ true → all_ascii p ≡ true → signatures_match e p ≡ ok true → e ≡ p
unfolding signatures_match
match-eq e p plain also h =
    let compared : compare_digest e p ≡ ok (text_eq e p) = compare_digest_plain e p plain also in
    ground (arith, text_eq_iff e p)

-- A signature is taken exactly if it is the one that the body has under the secret; the texts are
-- ASCII, as headers and hexadecimal digests are.
pub signatures_match-sign_body :
    {Bytes : Type 0} (hexdigest : Text → Bytes → Text) (secret : Text) (body : Bytes)
    (provided : Text)
    → all_ascii (sign_body hexdigest secret body) ≡ true
    → all_ascii provided ≡ true
    → (signatures_match (sign_body hexdigest secret body) provided ≡ ok true)
      ↔ (provided ≡ sign_body hexdigest secret body)
unfolding sign_body
signatures_match-sign_body hexdigest secret body provided plain also =
    let expected = sign_body hexdigest secret body in
    (
      λ h. sym (match-eq expected provided plain also h),
      λ same. rw same (match_same expected refl plain),
    )
