-- ===== src/Validators/BusinessId/Tests.antt =====
-- A business ID, at which the theorems on `business_id_checksum` are applied.
use n8n_production_systems.Validators.BusinessId.{business_id_checksum, weighted_sum, id_text}
use n8n_production_systems.Validators.BusinessId.Checksum.{
  Accepted, business_id_checksum-passed_iff,
}
use n8n_production_systems.Validators.BusinessId.Errors.{IsBody, written_iff}
use n8n_production_systems.Text.{codes}
use n8n_production_systems.Text.Ascii.{ascii}
use n8n_production_systems.Common.{arith, List, some, ℕ, ◌≡◌, ◌∷◌, refl, true, [], ◌↔◌}

-- 0112038-9
abbrev body : List ℕ
body = 0 ∷ 1 ∷ 1 ∷ 2 ∷ 0 ∷ 3 ∷ 8 ∷ []

abbrev mistyped : List ℕ
mistyped = 0 ∷ 1 ∷ 1 ∷ 2 ∷ 7 ∷ 3 ∷ 8 ∷ []

body-IsBody : IsBody body
body-IsBody = (ground arith, refl)

mistyped-IsBody : IsBody mistyped
mistyped-IsBody = (ground arith, refl)

passes : (business_id_checksum ascii (some (id_text body 9))).passed ≡ true
unfolding weighted_sum
passes = (written_iff ascii body 9 body-IsBody (omega arith)).1 refl

business_id_checksum-passed_iff_example :
    ((business_id_checksum ascii (some (codes " 0112038-9"))).passed ≡ true)
    ↔ Accepted ascii (some (codes " 0112038-9"))
business_id_checksum-passed_iff_example =
    business_id_checksum-passed_iff ascii (some (codes " 0112038-9"))
