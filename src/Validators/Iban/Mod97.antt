-- ===== src/Validators/Iban/Mod97.antt =====
-- `_mod97` on texts of the characters that an IBAN holds: the numeral that it reads, and what the
-- remainder says of a character that was changed.
use n8n_production_systems.Validators.Iban.{expand, mod97}
use n8n_production_systems.Text.{Text, CharDb, is_empty}
use n8n_production_systems.Common.{
  ℕ, ◌≤◌, All, ◌≡◌, some, ◌∷◌, if◌then◌else◌, arith, ok, leb, [], ◌*◌, ◌+◌, ◌-◌, ◌++◌, ◌%◌, inl,
  refl, inr, ◌/◌, false, ◌<◌, drop, All-append, take, ◌∙◌,
}
use n8n_production_systems.Text.Shape.{
  read_from, digit_char, decimal-digit_char, int_of, int_of_lem,
}
use n8n_production_systems.Text.Show.{show, digits_of_two}
use n8n_production_systems.Validators.Codes.{IsCode}

-- one character more behind `n`, a letter for two digits
pub add_code : ℕ → ℕ → ℕ
add_code n c = if leb c b'9' then n * 10 + (c - 48) else n * 100 + (c - 55)

-- The number that a text of digits and letters spells behind `n`.
unfoldable pub numeral_from : ℕ → Text → ℕ
unfolding add_code
numeral_from n [] = n
numeral_from n (c ∷ s) = numeral_from (add_code n c) s

-- the digits that stand for the text
spelled : Text → Text
spelled [] = []
spelled (c ∷ s) = (if leb c b'9' then c ∷ [] else show (c - 55)) ++ spelled s

show_letter :
    (c : ℕ)
    → b'A' ≤ c
    → c ≤ b'Z'
    → show (c - 55) ≡ digit_char ((c - 55) / 10) ∷ digit_char ((c - 55) % 10) ∷ []
unfolding show
show_letter c low high = rw (digits_of_two (c - 55) (omega arith) (omega arith))

module _ (db : CharDb) where
  expand-spelled : (s : Text) → All IsCode s → expand db s ≡ some (spelled s)
  unfolding expand spelled
  expand-spelled [] h = refl
  expand-spelled (c ∷ s) h = ground (arith, expand-spelled s h.1, db.digit_ascii c)

  read_from-spelled :
      (n : ℕ) (s : Text) → All IsCode s → read_from db n (spelled s) ≡ ok (numeral_from n s)
  unfolding read_from spelled numeral_from
  read_from-spelled n [] h = refl
  read_from-spelled n (c ∷ s) h = elim h.0 [
    | inl (low, high) ↦
        ground (arith, db.decimal_ascii c, read_from-spelled (n * 10 + (c - 48)) s h.1)
    | inr (low, high) ↦
        let v = c - 55 in
        let same : (n * 10 + v / 10) * 10 + v % 10 ≡ n * 100 + v = omega arith in
        let letter : leb c b'9' ≡ false = ground arith in
        rw
          (
            letter,
            show_letter c low high,
            decimal-digit_char db (v / 10) (omega arith),
            decimal-digit_char db (v % 10) (omega arith),
            same,
          )
          (read_from-spelled (n * 100 + v) s h.1)
  ]

add_code-mod : (n m c : ℕ) → n % 97 ≡ m % 97 → add_code n c % 97 ≡ add_code m c % 97
unfolding add_code
add_code-mod n m c h = ground arith

add_code-cancel : (n m c : ℕ) → add_code n c % 97 ≡ add_code m c % 97 → n % 97 ≡ m % 97
unfolding add_code
add_code-cancel n m c h = ground arith

numeral_from-mod :
    (n m : ℕ) (s : Text) → n % 97 ≡ m % 97 → numeral_from n s % 97 ≡ numeral_from m s % 97
unfolding numeral_from
numeral_from-mod n m [] h = h
numeral_from-mod n m (c ∷ s) h =
    numeral_from-mod (add_code n c) (add_code m c) s (add_code-mod n m c h)

pub numeral_from-cancel :
    (n m : ℕ) (s : Text) → numeral_from n s % 97 ≡ numeral_from m s % 97 → n % 97 ≡ m % 97
unfolding numeral_from
numeral_from-cancel n m [] h = h
numeral_from-cancel n m (c ∷ s) h =
    add_code-cancel n m c (numeral_from-cancel (add_code n c) (add_code m c) s h)

pub numeral_from-append :
    (n : ℕ) (s t : Text) → numeral_from n (s ++ t) ≡ numeral_from (numeral_from n s) t
unfolding numeral_from
numeral_from-append n [] t = refl
numeral_from-append n (c ∷ s) t = numeral_from-append (add_code n c) s t

-- the usual check with small numbers: reduce modulo 97 at each character
pub stream97 : ℕ → Text → ℕ
stream97 r [] = r
stream97 r (c ∷ s) = stream97 (add_code r c % 97) s

numeral_from-stream97 : (r : ℕ) (s : Text) → r < 97 → numeral_from r s % 97 ≡ stream97 r s
unfolding numeral_from stream97
numeral_from-stream97 r [] h = omega arith
numeral_from-stream97 r (c ∷ s) h =
    numeral_from-mod _ _ s (omega arith) ∙ numeral_from-stream97 (add_code r c % 97) s (omega arith)

-- the four characters at the front go to the end
abbrev pub rotated : Text → Text
rotated s = drop 4 s ++ take 4 s

All-rotated : (s : Text) → All IsCode s → All IsCode (rotated s)
All-rotated [] h = tt
All-rotated (a ∷ []) h = h
All-rotated (a ∷ b ∷ []) h = h
All-rotated (a ∷ b ∷ c ∷ []) h = h
All-rotated (a ∷ b ∷ c ∷ d ∷ s) (ha, (hb, (hc, (hd, hs)))) =
    All-append IsCode s (a ∷ b ∷ c ∷ d ∷ []) hs (ha, (hb, (hc, (hd, tt))))

spelled-not_empty : (s : Text) → All IsCode s → is_empty s ≡ false → is_empty (spelled s) ≡ false
unfolding spelled
spelled-not_empty [] h e = e
spelled-not_empty (c ∷ s) h e = elim h.0 [
  | inl digit ↦ ground arith
  | inr letter ↦ ground (arith, show_letter c letter.0 letter.1)
]

rotated-not_empty : (s : Text) → is_empty s ≡ false → is_empty (rotated s) ≡ false
rotated-not_empty [] h = h
rotated-not_empty (a ∷ []) h = refl
rotated-not_empty (a ∷ b ∷ []) h = refl
rotated-not_empty (a ∷ b ∷ c ∷ []) h = refl
rotated-not_empty (a ∷ b ∷ c ∷ d ∷ []) h = refl
rotated-not_empty (a ∷ b ∷ c ∷ d ∷ e ∷ s) h = refl

module _ (db : CharDb) where
  -- On digits and capital letters `_mod97` raises nothing, and returns the remainder of the
  -- numeral that the rotated text spells.
  pub mod97-numeral_from :
      (s : Text)
      → All IsCode s
      → is_empty s ≡ false
      → mod97 db s ≡ ok (some (numeral_from 0 (rotated s) % 97))
  unfolding mod97
  mod97-numeral_from s h e =
      let r = rotated s in
      let codes_r : All IsCode r = All-rotated s h in
      let full : is_empty (spelled r) ≡ false =
        spelled-not_empty r codes_r (rotated-not_empty s e) in
      let number : int_of db (spelled r) ≡ ok (numeral_from 0 r) =
        int_of_lem db (spelled r) full ∙ read_from-spelled db 0 r codes_r in
      rw (expand-spelled db r codes_r, mod97) (rw number)

  -- On a text of digits and capital letters that is not empty, `_mod97` raises nothing, and its
  -- one long division gives what reducing modulo 97 after each character gives.
  pub mod97-stream97 :
      (s : Text)
      → All IsCode s
      → is_empty s ≡ false
      → mod97 db s ≡ ok (some (stream97 0 (rotated s)))
  mod97-stream97 s h e =
      rw (mod97-numeral_from s h e, numeral_from-stream97 0 (rotated s) (omega arith))

pub numeral_from_digits :
    (n k : ℕ)
    → k < 100
    → numeral_from n (digit_char (k / 10) ∷ digit_char (k % 10) ∷ []) ≡ n * 100 + k
unfolding numeral_from
numeral_from_digits n k h = ground arith

-- the same kind of character: two digits, or two letters
abbrev pub SameKind : ℕ → ℕ → Type 0
SameKind x y = (leb x b'9' ≡ leb y b'9') × IsCode x × IsCode y

pub add_code-ne :
    (n x y : ℕ) → SameKind x y → numeral_from n (x ∷ []) % 97 ≡ numeral_from n (y ∷ []) % 97 → x ≡ y
unfolding numeral_from
add_code-ne n x y h e = ground arith

-- two digits that changed places
pub add_codes_swapped :
    (n x y : ℕ)
    → x < 10
    → y < 10
    → numeral_from n (digit_char x ∷ digit_char y ∷ []) % 97
      ≡ numeral_from n (digit_char y ∷ digit_char x ∷ []) % 97
    → x ≡ y
unfolding numeral_from
add_codes_swapped n x y hx hy e = ground arith

numeral_from_parts :
    (pre s post : Text)
    → numeral_from 0 (pre ++ (s ++ post)) ≡ numeral_from (numeral_from (numeral_from 0 pre) s) post
numeral_from_parts pre s post =
    numeral_from-append 0 pre (s ++ post) ∙ numeral_from-append (numeral_from 0 pre) s post

-- Numerals with the same ends that agree modulo 97 agree where they differ.
pub changed_tail :
    (pre s t post : Text)
    → numeral_from 0 (pre ++ (s ++ post)) % 97 ≡ numeral_from 0 (pre ++ (t ++ post)) % 97
    → numeral_from (numeral_from 0 pre) s % 97 ≡ numeral_from (numeral_from 0 pre) t % 97
changed_tail pre s t post e =
    numeral_from-cancel _ _ post
      (rw (← numeral_from_parts pre s post, ← numeral_from_parts pre t post) e)
