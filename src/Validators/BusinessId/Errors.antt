-- ===== src/Validators/BusinessId/Errors.antt =====
-- Which errors of typing `business_id_checksum` detects, and which check digits it accepts.
use n8n_production_systems.Common.{
  ℕ, ◌+◌, ◌-◌, ◌*◌, ◌%◌, ◌<◌, ◌≡◌, ◌≢◌, ◌↔◌, refl, true, false, some, List, [], ◌∷◌, ◌++◌, map, All,
  All-append, length, length-append, arith, All-middle, false_of_ne_true,
}
use n8n_production_systems.Text.{CharDb}
use n8n_production_systems.Text.Strip.{strip, Solid, strip-Solid}
use n8n_production_systems.Text.Shape.{
  full_match, full_match-print, digit_char, digit_char-solid, AreDigits, Solid-map-digit_char,
}
use n8n_production_systems.Validators.BusinessId.{
  weights, id_pattern, weighted_sum, business_id_checksum, id_text,
}
use n8n_production_systems.Validators.BusinessId.Checksum.{
  Accepted, business_id_checksum-passed_iff,
}

-- the seven digits before the dash
abbrev pub IsBody : List ℕ → Type 0
IsBody body = AreDigits body × (length body ≡ 7)

-- Different digits, times the weight, leave different remainders modulo 11.
abbrev Separates : ℕ → Type 0
Separates w = (b d e : ℕ) → d < 10 → e < 10 → (b + d * w) % 11 ≡ 0 → (b + e * w) % 11 ≡ 0 → d ≡ e

weights-Separates : All Separates weights
weights-Separates = omega arith

same_digit :
    (ws pre post : List ℕ) (d e b : ℕ)
    → All Separates ws
    → length (pre ++ d ∷ post) ≡ length ws
    → d < 10
    → e < 10
    → (b + weighted_sum (pre ++ d ∷ post) ws) % 11 ≡ 0
    → (b + weighted_sum (pre ++ e ∷ post) ws) % 11 ≡ 0
    → d ≡ e
unfolding weighted_sum
same_digit [] pre post d e b s n hd he p q = absurd (omega (arith, length-append pre (d ∷ post)))
same_digit (w ∷ ws) [] post d e b s n hd he p q =
    s.0 (b + weighted_sum post ws) d e hd he (omega arith) (omega arith)
same_digit (w ∷ ws) (x ∷ pre) post d e b s n hd he p q =
    same_digit ws pre post d e (b + x * w) s.1 (omega arith) hd he (omega arith) (omega arith)

module _ (db : CharDb) where
  id_text-Solid :
      (body : List ℕ) (check : ℕ) → AreDigits body → check < 10 → Solid db (id_text body check)
  id_text-Solid body check range h =
      All-append _ (map digit_char body) _ (Solid-map-digit_char db body range)
        (ground (arith, db.space_ascii b'-'), (digit_char-solid db check h, tt))

  written_reads :
      (body : List ℕ) (check : ℕ)
      → IsBody body
      → check < 10
      → full_match db id_pattern (strip db (id_text body check)) ≡ some (body ∷ (check ∷ []) ∷ [])
  written_reads body check (range, size) h =
      rw (strip-Solid db (id_text body check) (id_text-Solid body check range h)) (
        full_match-print db id_pattern (body ∷ (check ∷ []) ∷ [])
          (range, size, ((h, tt), refl, tt)))

  written_sums :
      (body : List ℕ) (check : ℕ)
      → IsBody body
      → check < 10
      → Accepted db (some (id_text body check))
      → (weighted_sum body weights + check) % 11 ≡ 0
  written_sums body check b h a =
      let reads = written_reads body check b h in
      let same_body : a.body ≡ body = cc (a.reads, reads) in
      let same_check : a.check ≡ check = cc (a.reads, reads) in
      rw (← same_body, ← same_check) a.sums

  -- A well-formed identifier passes exactly when its digits sum to zero modulo 11.
  pub written_iff :
      (body : List ℕ) (check : ℕ)
      → IsBody body
      → check < 10
      → ((business_id_checksum db (some (id_text body check))).passed ≡ true)
        ↔ ((weighted_sum body weights + check) % 11 ≡ 0)
  written_iff body check b h =
      let iff = business_id_checksum-passed_iff db (some (id_text body check)) in
      (
        λ passed. written_sums body check b h (iff.0 passed),
        λ e.
            iff.1 (record {
              body = body;
              check = check;
              reads = written_reads body check b h;
              sums = e;
            }),
      )

  -- If an identifier passes, no identifier that differs from it in one digit before the dash does.
  pub business_id_checksum_substitution :
      (pre post : List ℕ) (d e check : ℕ)
      → IsBody (pre ++ d ∷ post)
      → IsBody (pre ++ e ∷ post)
      → check < 10
      → d ≢ e
      → (business_id_checksum db (some (id_text (pre ++ d ∷ post) check))).passed ≡ true
      → (business_id_checksum db (some (id_text (pre ++ e ∷ post) check))).passed ≡ false
  business_id_checksum_substitution pre post d e check bd be h different passed =
      false_of_ne_true _ λ both. different (
        same_digit weights pre post d e check weights-Separates bd.1 (All-middle _ pre post d bd.0)
          (All-middle _ pre post e be.0)
          (omega (arith, (written_iff (pre ++ d ∷ post) check bd h).0 passed))
          (omega (arith, (written_iff (pre ++ e ∷ post) check be h).0 both)))

  -- A body of seven digits whose weighted sum does not leave 1 modulo 11 has exactly one check
  -- digit with which the identifier passes; if it leaves 1, no check digit passes.
  pub check_digit_unique :
      (body : List ℕ)
      → IsBody body
      → (weighted_sum body weights % 11 ≢ 1
          → (c : ℕ) × (c < 10)
            × ((business_id_checksum db (some (id_text body c))).passed ≡ true)
            × ((k : ℕ)
                → k < 10
                → (business_id_checksum db (some (id_text body k))).passed ≡ true
                → k ≡ c))
        × (weighted_sum body weights % 11 ≡ 1
            → (k : ℕ) → k < 10
            → (business_id_checksum db (some (id_text body k))).passed ≡ false)
  check_digit_unique body b = (
    λ h.
        let c = (11 - weighted_sum body weights % 11) % 11 in
        let small : c < 10 = omega (arith, h) in
        (
          c,
          small,
          (written_iff body c b small).1 (omega arith),
          λ k hk passed. omega (arith, (written_iff body k b hk).0 passed),
        ),
    λ h k hk. false_of_ne_true _ λ passed. omega (arith, (written_iff body k b hk).0 passed),
  )
