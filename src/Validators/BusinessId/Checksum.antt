-- ===== src/Validators/BusinessId/Checksum.antt =====
-- What `business_id_checksum` accepts, and which errors of typing it detects.
use n8n_production_systems.Common.{
  ℕ, ◌+◌, ◌%◌, ◌<◌, ◌≡◌, ◌↔◌, refl, true, false, Option, some, List, [], ◌∷◌, arith, Option-cases,
  inl, inr, none, Bool-cases,
}
use n8n_production_systems.Text.{Text, CharDb, or_empty, is_empty}
use n8n_production_systems.Text.Strip.{strip}
use n8n_production_systems.Text.Shape.{full_match, value_one, Fits, full_match-Fits}
use n8n_production_systems.Validators.Result.{RuleResult}
use n8n_production_systems.Validators.BusinessId.{
  weights, id_pattern, weighted_sum, judge, check_groups, business_id_checksum,
}

-- Modulo 11 the check digit completes the sum to zero.
judge-passed_iff :
    (total actual : ℕ)
    → actual < 10
    → ((judge total actual).passed ≡ true) ↔ ((total + actual) % 11 ≡ 0)
unfolding judge
judge-passed_iff total actual h = ground arith

check_groups-passed_iff :
    (body : List ℕ) (check : ℕ)
    → check < 10
    → ((check_groups (some (body ∷ (check ∷ []) ∷ []))).passed ≡ true)
      ↔ ((weighted_sum body weights + check) % 11 ≡ 0)
unfolding check_groups
check_groups-passed_iff body check h =
    rw value_one (judge-passed_iff (weighted_sum body weights) check h)

-- The value reads as an identifier whose digits sum to zero modulo 11.
pub record Accepted (db : CharDb) (given : Option Text) : Type 0 where
  pub body : List ℕ
  pub check : ℕ
  pub reads : full_match db id_pattern (strip db (or_empty given)) ≡ some (body ∷ (check ∷ []) ∷ [])
  pub sums : (weighted_sum body weights + check) % 11 ≡ 0

-- what `business_id_checksum` does with the stripped text
checked : CharDb → Text → RuleResult
checked db raw = check_groups (full_match db id_pattern raw)

not_empty :
    (db : CharDb) (s : Text) {gs : List (List ℕ)}
    → full_match db id_pattern s ≡ some gs
    → is_empty s ≡ false
unfolding full_match
not_empty db [] h = cc
not_empty db (c ∷ s) h = refl

module _ (db : CharDb) where
  groups-Accepted :
      (given : Option Text) (gs : List (List ℕ))
      → full_match db id_pattern (strip db (or_empty given)) ≡ some gs
      → Fits id_pattern gs
      → (check_groups (some gs)).passed ≡ true
      → Accepted db given
  groups-Accepted given (body ∷ (check ∷ []) ∷ []) e f h = record {
    body = body;
    check = check;
    reads = e;
    sums = (check_groups-passed_iff body check f.2.0.0).0 h;
  }
  groups-Accepted given [] e f h = absurd f
  groups-Accepted given (body ∷ []) e f h = absurd f.2
  groups-Accepted given (body ∷ [] ∷ gs) e f h = absurd (omega (arith, f.2.1))
  groups-Accepted given (body ∷ (check ∷ []) ∷ g ∷ gs) e f h = absurd f.2.2
  groups-Accepted given (body ∷ (check ∷ d ∷ ds) ∷ gs) e f h = absurd (omega (arith, f.2.1))

  passed-Accepted :
      (given : Option Text) → (business_id_checksum db given).passed ≡ true → Accepted db given
  unfolding business_id_checksum
  passed-Accepted given h =
      elim (Option-cases (full_match db id_pattern (strip db (or_empty given)))) [
        | inl e ↦ absurd (ground arith)
        | inr (gs, e) ↦
            groups-Accepted given gs e (full_match-Fits db id_pattern _ gs e) (ground arith)
      ]

  Accepted-passed :
      (given : Option Text) → Accepted db given → (business_id_checksum db given).passed ≡ true
  unfolding business_id_checksum
  Accepted-passed given a =
      let f = full_match-Fits db id_pattern _ _ a.reads in
      rw (not_empty db _ a.reads, a.reads)
        ((check_groups-passed_iff a.body a.check f.2.0.0).1 a.sums)

  -- `business_id_checksum` passes a value exactly when, stripped of the spaces around it, it is
  -- seven digits, a dash and a check digit, and the weighted sum of the seven digits plus the
  -- check digit is divisible by 11.
  pub business_id_checksum-passed_iff :
      (given : Option Text) → ((business_id_checksum db given).passed ≡ true) ↔ Accepted db given
  business_id_checksum-passed_iff given = (passed-Accepted given, Accepted-passed given)

groups-rule : (gs : Option (List (List ℕ))) → (check_groups gs).rule ≡ "business_id_checksum"
unfolding check_groups judge
groups-rule none = refl
groups-rule (some []) = refl
groups-rule (some (body ∷ [])) = refl
groups-rule (some (body ∷ check ∷ [])) = ground arith
groups-rule (some (body ∷ check ∷ more ∷ rest)) = refl

pub business_id_checksum-rule :
    (db : CharDb) (given : Option Text)
    → (business_id_checksum db given).rule ≡ "business_id_checksum"
unfolding business_id_checksum
business_id_checksum-rule db given = elim (Bool-cases (is_empty (strip db (or_empty given)))) [
  | inl missing ↦ rw missing refl
  | inr full ↦ rw full (groups-rule (full_match db id_pattern (strip db (or_empty given))))
]
