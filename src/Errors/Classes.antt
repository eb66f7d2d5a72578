-- ===== src/Errors/Classes.antt =====
-- What the class of an error depends on.
use mathlib.Core.Path.{refl}
use text.Mathlib.Text.{◌==◌ as str_eq}
use n8n_production_systems.Errors.{
  Parsed, Classification, transient_status, rate_limit_status, invalid_status, auth_status,
  permanent_status, has_status, result, is_transient, has_marker, rate_limit_markers,
  invalid_markers, classify,
}
use n8n_production_systems.Text.{Text}
use n8n_production_systems.Common.{
  ◌≡◌, List, ◌||◌, ℕ, true, ◌↔◌, ◌++◌, arith, some, ◌∷◌, false, Option, Bool, [], none,
  if◌then◌else◌, ap, ◌&&◌, sym, ◌∙◌,
}

-- the chain of tests, by their results
abbrev chain_of : Bool → Bool → Bool → Bool → Bool → Bool → Bool → Bool → Bool → Classification
chain_of a b c d e f g h k =
    if a
    then result "success" false true
    else if b
    then result "transient" true false
    else if c
    then result "rate_limited" true false
    else if d
    then result "invalid_data" false false
    else if e
    then result "auth" false false
    else if f
    then result "permanent" false false
    else if g
    then result "transient" true false
    else if h
    then result "rate_limited" true false
    else if k
    then result "invalid_data" false false
    else result "unknown" false false

classify-chain_of :
    (p : Parsed)
    → classify p
      ≡ chain_of
          (has_status p.status (409 ∷ []) && p.idempotent_create)
          (has_status p.status transient_status)
          (has_status p.status rate_limit_status)
          (has_status p.status invalid_status)
          (has_status p.status auth_status)
          (has_status p.status permanent_status)
          (is_transient p.code p.blob)
          (has_marker p.blob rate_limit_markers)
          (has_marker p.blob invalid_markers)
unfolding classify
classify-chain_of p = refl

chain_of-retry :
    (a b c d e f g h k : Bool)
    → (chain_of a b c d e f g h k).retry ≡ (
        str_eq (chain_of a b c d e f g h k).class "transient"
        || str_eq (chain_of a b c d e f g h k).class "rate_limited")
chain_of-retry true b c d e f g h k = refl
chain_of-retry false true c d e f g h k = refl
chain_of-retry false false true d e f g h k = refl
chain_of-retry false false false true e f g h k = refl
chain_of-retry false false false false true f g h k = refl
chain_of-retry false false false false false true g h k = refl
chain_of-retry false false false false false false true h k = refl
chain_of-retry false false false false false false false true k = refl
chain_of-retry false false false false false false false false true = refl
chain_of-retry false false false false false false false false false = refl

chain_of-success : (a b c d e f g h k : Bool) → (chain_of a b c d e f g h k).idempotent_success ≡ a
chain_of-success true b c d e f g h k = refl
chain_of-success false true c d e f g h k = refl
chain_of-success false false true d e f g h k = refl
chain_of-success false false false true e f g h k = refl
chain_of-success false false false false true f g h k = refl
chain_of-success false false false false false true g h k = refl
chain_of-success false false false false false false true h k = refl
chain_of-success false false false false false false false true k = refl
chain_of-success false false false false false false false false true = refl
chain_of-success false false false false false false false false false = refl

-- An error is retried exactly if its class is `transient` or `rate_limited`.
pub classify-retry :
    (p : Parsed)
    → (classify p).retry
      ≡ (str_eq (classify p).class "transient" || str_eq (classify p).class "rate_limited")
classify-retry p = rw (classify-chain_of p) (
    chain_of-retry (has_status p.status (409 ∷ []) && p.idempotent_create)
      (has_status p.status transient_status) (has_status p.status rate_limit_status)
      (has_status p.status invalid_status) (has_status p.status auth_status)
      (has_status p.status permanent_status) (is_transient p.code p.blob)
      (has_marker p.blob rate_limit_markers) (has_marker p.blob invalid_markers))

has_status_one : (o : Option ℕ) (n : ℕ) → has_status o (n ∷ []) ≡ true → o ≡ some n
unfolding has_status
has_status_one none n h = cc
has_status_one (some m) n h = ap some (ground (arith, h))

classify-success :
    (p : Parsed)
    → (classify p).idempotent_success ≡ (has_status p.status (409 ∷ []) && p.idempotent_create)
classify-success p = rw (classify-chain_of p) (
    chain_of-success (has_status p.status (409 ∷ []) && p.idempotent_create)
      (has_status p.status transient_status) (has_status p.status rate_limit_status)
      (has_status p.status invalid_status) (has_status p.status auth_status)
      (has_status p.status permanent_status) (is_transient p.code p.blob)
      (has_marker p.blob rate_limit_markers) (has_marker p.blob invalid_markers))

-- An error counts as a success exactly if its status is 409 and it is marked as an idempotent create.
pub classify-success_iff :
    (p : Parsed)
    → ((classify p).idempotent_success ≡ true)
      ↔ ((p.status ≡ some 409) × (p.idempotent_create ≡ true))
unfolding has_status
classify-success_iff p =
    let is = classify-success p in
    (
      λ h. (has_status_one p.status 409 (ground (arith, is, h)), ground (arith, is, h)),
      λ h. is ∙ rw (h.0, h.1) refl,
    )

abbrev pub known_status : List ℕ
known_status =
    transient_status ++ (rate_limit_status ++ (invalid_status ++ (auth_status ++ permanent_status)))

has_status-append :
    (o : Option ℕ) (xs ys : List ℕ) → has_status o (xs ++ ys) ≡ (has_status o xs || has_status o ys)
unfolding has_status
has_status-append none xs ys = refl
has_status-append (some n) [] ys = refl
has_status-append (some n) (x ∷ xs) ys = ground (arith, has_status-append (some n) xs ys)

-- a status that one of the sets has ends the chain before the texts
chain_of-known :
    (a b c d e f g h k u v w : Bool)
    → (b || (c || (d || (e || f)))) ≡ true
    → chain_of a b c d e f g h k ≡ chain_of a b c d e f u v w
chain_of-known true b c d e f g h k u v w z = refl
chain_of-known false true c d e f g h k u v w z = refl
chain_of-known false false true d e f g h k u v w z = refl
chain_of-known false false false true e f g h k u v w z = refl
chain_of-known false false false false true f g h k u v w z = refl
chain_of-known false false false false false true g h k u v w z = refl
chain_of-known false false false false false false g h k u v w z = cc

known_split :
    (o : Option ℕ)
    → has_status o known_status ≡ (
        has_status o transient_status
        || (has_status o rate_limit_status
            || (has_status o invalid_status
                || (has_status o auth_status || has_status o permanent_status))))
known_split o =
    rw
      (
        has_status-append o transient_status
            (rate_limit_status ++ (invalid_status ++ (auth_status ++ permanent_status))),
        has_status-append o rate_limit_status (invalid_status ++ (auth_status ++ permanent_status)),
        has_status-append o invalid_status (auth_status ++ permanent_status),
        has_status-append o auth_status permanent_status,
      )
      refl

-- A status of one of the sets decides the class: the code and the texts of the error are not looked
-- at.
pub classify-status :
    (p : Parsed) (code blob : Text)
    → has_status p.status known_status ≡ true
    → classify p ≡ classify (record p { code = code; blob = blob })
classify-status p code blob h =
    rw (classify-chain_of p, classify-chain_of (record p { code = code; blob = blob }))
      (chain_of-known (has_status p.status (409 ∷ []) && p.idempotent_create)
        (has_status p.status transient_status) (has_status p.status rate_limit_status)
        (has_status p.status invalid_status) (has_status p.status auth_status)
        (has_status p.status permanent_status) _ _ _ _ _ _ (sym (known_split p.status) ∙ h))
