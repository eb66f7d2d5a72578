-- ===== src/Upload/Read/Limit.antt =====
-- `_read_limited` gives the whole upload back, or refuses it.
use mathlib.Core.Path.{ap₂}
use n8n_production_systems.Upload.Read.{max_upload_bytes, read_chunk, read_from, read_limited}
use n8n_production_systems.Common.{
  List, ℕ, ◌<◌, Option, length, ◌≡◌, false, take, ◌≤◌, if◌then◌else◌, true, [], ◌+◌, arith, leb,
  ◌∷◌, refl, some, ◌++◌, suc, Bool-cases, zero, none, inl, ◌∙◌, append-nil, inr, drop, length-take,
  length-drop, append_assoc, ap, take-append-drop, ltb, ltb→lt, sym, not_ltb→le,
}
use n8n_production_systems.Text.{is_empty}

take_empty : (k : ℕ) (left : List ℕ) → 0 < k → is_empty (take k left) ≡ is_empty left
take_empty zero left h = absurd (omega arith)
take_empty (suc k) [] h = refl
take_empty (suc k) (b ∷ left) h = refl

empty_length : (left : List ℕ) → is_empty left ≡ false → 0 < length left
empty_length [] h = cc
empty_length (b ∷ left) h = omega arith

within : ℕ → List ℕ → Option (List ℕ)
within size whole = if leb size max_upload_bytes then some whole else none

is_nil : (left : List ℕ) → is_empty left ≡ true → left ≡ []
is_nil [] h = refl
is_nil (b ∷ left) h = cc

within_over : (size : ℕ) (whole : List ℕ) → max_upload_bytes < size → within size whole ≡ none
unfolding within
within_over size whole h = ground arith

read_from_lem :
    (fuel : ℕ) (left : List ℕ) (total : ℕ) (chunks : List ℕ)
    → length left < fuel
    → total ≤ max_upload_bytes
    → read_from fuel left total chunks ≡ within (total + length left) (chunks ++ left)
unfolding read_from within
read_from_lem zero left total chunks h small = absurd (omega arith)
read_from_lem (suc fuel) left total chunks h small = elim (Bool-cases (is_empty left)) [
  | inl done ↦
      let nil : left ≡ [] = is_nil left done in
      let stop : is_empty (take read_chunk left) ≡ true =
        take_empty read_chunk left (omega arith) ∙ done in
      rw (stop, nil, append-nil) (ground arith)
  | inr more ↦
      let go : is_empty (take read_chunk left) ≡ false =
        take_empty read_chunk left (omega arith) ∙ more in
      let some_left : 0 < length left = empty_length left more in
      let chunk = take read_chunk left in
      let rest = drop read_chunk left in
      let size : length chunk + length rest ≡ length left =
        omega (arith, length-take read_chunk left, length-drop read_chunk left) in
      let shorter : length rest < fuel = omega (arith, length-drop read_chunk left, some_left, h) in
      let whole : (chunks ++ chunk) ++ rest ≡ chunks ++ left =
        append_assoc chunks chunk rest ∙ ap (λ t. chunks ++ t) (take-append-drop read_chunk left) in
      elim (Bool-cases (ltb max_upload_bytes (total + length chunk))) [
        | inl over ↦
            let beyond : max_upload_bytes < total + length chunk = ltb→lt _ _ over in
            rw (go, over) (sym (within_over _ (chunks ++ left) (omega (arith, size, beyond))))
        | inr under ↦
            rw (go, under)
              (read_from_lem fuel rest (total + length chunk) (chunks ++ chunk) shorter
                  (not_ltb→le _ _ under)
                ∙ ap₂ within (omega (arith, size)) whole)
      ]
]

-- `_read_limited` returns exactly the bytes of the upload if there are at most 10 MiB of them, and
-- refuses it otherwise; its loop ends.
pub read_limited_lem :
    (upload : List ℕ)
    → read_limited upload ≡ (if leb (length upload) max_upload_bytes then some upload else none)
unfolding read_limited within
read_limited_lem upload =
    let size : 0 + length upload ≡ length upload = omega arith in
    read_from_lem (suc (length upload)) upload 0 [] (omega arith) (omega arith)
    ∙ ap (λ n. within n upload) size
