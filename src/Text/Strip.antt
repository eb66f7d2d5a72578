-- ===== src/Text/Strip.antt =====
-- `str.strip`.
use n8n_production_systems.Common.{ℕ, ◌≡◌, refl, false, [], ◌∷◌, All, arith, if◌then◌else◌}
use n8n_production_systems.Text.{Text, CharDb}

module _ (db : CharDb) where
  unfoldable pub lstrip : Text → Text
  lstrip [] = []
  lstrip (c ∷ s) = if db.is_space c then lstrip s else c ∷ s

  -- a space stays only if something that is no space follows
  rstrip_at : ℕ → Text → Text
  rstrip_at c [] = if db.is_space c then [] else c ∷ []
  rstrip_at c (d ∷ r) = c ∷ d ∷ r

  rstrip : Text → Text
  unfolding rstrip_at
  rstrip [] = []
  rstrip (c ∷ s) = rstrip_at c (rstrip s)

  unfoldable pub strip : Text → Text
  unfolding lstrip rstrip
  strip s = rstrip (lstrip s)

  abbrev pub Solid : Text → Type 0
  Solid = All (λ c. db.is_space c ≡ false)

  rstrip-Solid : (s : Text) → Solid s → rstrip s ≡ s
  unfolding rstrip
  rstrip-Solid [] h = refl
  rstrip-Solid (c ∷ []) h = ground arith
  rstrip-Solid (c ∷ d ∷ s) h = rw (rstrip-Solid (d ∷ s) h.1)

  lstrip-Solid : (s : Text) → Solid s → lstrip s ≡ s
  unfolding lstrip
  lstrip-Solid [] h = refl
  lstrip-Solid (c ∷ s) h = ground arith

  -- A text without a space is left alone.
  pub strip-Solid : (s : Text) → Solid s → strip s ≡ s
  unfolding strip
  strip-Solid s h = rw (lstrip-Solid s h, rstrip-Solid s h)
