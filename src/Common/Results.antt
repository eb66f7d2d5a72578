-- ===== src/Common/Results.antt =====
-- What a Python call comes to: a value, or an exception.
use mathlib.Core.Path.{◌≡◌, refl, ap}
use mathlib.Core.Logic.{◌⊎◌, inl, inr}

pub data Exception : Type 0 where
  value_error key_error index_error type_error runtime_error file_not_found : Exception
  database_unavailable database_error receiver_error unauthorized : Exception
  sanitize_error sync_error attribute_error permission_error decode_error : Exception
  encode_error recursion_error : Exception

pub data Outcome {ℓ} (A : Type ℓ) : Type ℓ where
  ok : A → Outcome A
  raises : Exception → Outcome A

infixl 5 ◌>>=◌
abbrev pub ◌>>=◌ {ℓ κ} : {A : Type ℓ} {B : Type κ} → Outcome A → (A → Outcome B) → Outcome B
ok a >>= f = f a
raises e >>= f = raises e

pub Outcome-cases {ℓ} :
    {A : Type ℓ} (m : Outcome A) → ((e : Exception) × (m ≡ raises e)) ⊎ ((a : A) × (m ≡ ok a))
Outcome-cases (ok a) = inr (a, refl)
Outcome-cases (raises e) = inl (e, refl)

pub bind_ok {ℓ κ} :
    {A : Type ℓ} {B : Type κ} (m : Outcome A) (f : A → Outcome B) (b : B)
    → (m >>= f) ≡ ok b
    → (a : A) × (m ≡ ok a) × (f a ≡ ok b)
bind_ok (ok a) f b h = (a, refl, h)
bind_ok (raises e) f b h = cc

-- the exception of a chain is that of its first part, or of what follows it
pub bind_raises {ℓ κ} :
    {A : Type ℓ} {B : Type κ} (m : Outcome A) (f : A → Outcome B) (e : Exception)
    → (m >>= f) ≡ raises e
    → (m ≡ raises e) ⊎ ((a : A) × (m ≡ ok a) × (f a ≡ raises e))
bind_raises (ok a) f e h = inr (a, refl, h)
bind_raises (raises d) f e h = let same : d ≡ e = cc in inl (ap raises same)
