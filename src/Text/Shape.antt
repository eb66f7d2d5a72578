-- ===== src/Text/Shape.antt =====
-- Regular expressions whose parts are a literal character or a counted group `(\d{n})`, matched
-- against a whole text as by `re.fullmatch`. A group is returned as the values of its digits.
use n8n_production_systems.Common.{
  ℕ, zero, suc, ◌+◌, ◌*◌, ◌<◌, ◌≡◌, refl, false, Option, none, some, [], ◌∷◌, ◌++◌, List, map, All,
  length, arith, ◌==◌, ==_refl, if◌then◌else◌, Option-cases, inl, inr, Outcome, ok, raises,
  value_error, Bool, ◌&&◌, ◌≤◌, All-append,
}
use n8n_production_systems.Text.{Text, CharDb, is_empty}
use n8n_production_systems.Text.Strip.{Solid}

pub data Piece : Type 0 where
  lit : ℕ → Piece
  digits : ℕ → Piece

-- the character of a digit
abbrev pub digit_char : ℕ → ℕ
digit_char d = b'0' + d

abbrev pub AreDigits : List ℕ → Type 0
AreDigits = All (λ d. d < 10)

-- The number that digits spell behind `n`.
abbrev pub value_from : ℕ → List ℕ → ℕ
value_from n [] = n
value_from n (d ∷ ds) = value_from (n * 10 + d) ds

-- `int` of the text of a group
abbrev pub value : List ℕ → ℕ
value = value_from 0

pub value_one : (d : ℕ) → value (d ∷ []) ≡ d
value_one d = omega arith

prepend : ℕ → Option (List ℕ × Text) → Option (List ℕ × Text)
prepend d none = none
prepend d (some (ds, rest)) = some (d ∷ ds, rest)

add_group : List ℕ → Option (List (List ℕ)) → Option (List (List ℕ))
add_group g none = none
add_group g (some gs) = some (g ∷ gs)

module _ (db : CharDb) where
  -- the digits at the front, and the text behind them
  pub take_digits : ℕ → Text → Option (List ℕ × Text)
  unfolding prepend
  take_digits zero s = some ([], s)
  take_digits (suc n) [] = none
  take_digits (suc n) (c ∷ s) = elim (db.decimal c) [
    | none ↦ none
    | some d ↦ prepend d (take_digits n s)
  ]

  unfoldable pub full_match : List Piece → Text → Option (List (List ℕ))
  unfolding take_digits add_group
  full_match [] [] = some []
  full_match [] (c ∷ s) = none
  full_match (lit x ∷ ps) [] = none
  full_match (lit x ∷ ps) (c ∷ s) = if c == x then full_match ps s else none
  full_match (digits n ∷ ps) s = elim (take_digits n s) [
    | none ↦ none
    | some (g, rest) ↦ add_group g (full_match ps rest)
  ]

  pub decimal-digit_char : (d : ℕ) → d < 10 → db.decimal (digit_char d) ≡ some d
  decimal-digit_char d h = ground (arith, db.decimal_ascii (48 + d))

  pub digit_char-solid : (d : ℕ) → d < 10 → db.is_space (digit_char d) ≡ false
  digit_char-solid d h = ground (arith, db.space_ascii (48 + d))

  -- Digits that are written out are read back.
  pub take_digits-map :
      (ds rest : List ℕ)
      → AreDigits ds
      → take_digits (length ds) (map digit_char ds ++ rest) ≡ some (ds, rest)
  unfolding take_digits
  take_digits-map [] rest h = refl
  take_digits-map (d ∷ ds) rest h = rw (decimal-digit_char d h.0, take_digits-map ds rest h.1)

  pub Solid-map-digit_char : (ds : List ℕ) → AreDigits ds → Solid db (map digit_char ds)
  Solid-map-digit_char [] h = tt
  Solid-map-digit_char (d ∷ ds) h = (digit_char-solid d h.0, Solid-map-digit_char ds h.1)

  -- What was read as digits are digits.
  pub take_digits_range :
      (n : ℕ) (s : Text) (ds rest : List ℕ)
      → take_digits n s ≡ some (ds, rest)
      → AreDigits ds × (length ds ≡ n)
  unfolding take_digits prepend
  take_digits_range zero s ds rest h = ground arith
  take_digits_range (suc n) [] ds rest h = ground arith
  take_digits_range (suc n) (c ∷ s) [] rest h = ground arith
  take_digits_range (suc n) (c ∷ s) (d ∷ ds) rest h =
      ground (arith, db.decimal_range c d, take_digits_range n s ds rest)

-- The groups that a pattern can return.
abbrev pub Fits : List Piece → List (List ℕ) → Type 0
Fits [] [] = Unit
Fits [] (g ∷ gs) = ⊥
Fits (lit x ∷ ps) gs = Fits ps gs
Fits (digits n ∷ ps) [] = ⊥
Fits (digits n ∷ ps) (g ∷ gs) = AreDigits g × (length g ≡ n) × Fits ps gs

-- The text that has these groups.
abbrev pub print : List Piece → List (List ℕ) → Text
print [] gs = []
print (lit x ∷ ps) gs = x ∷ print ps gs
print (digits n ∷ ps) [] = []
print (digits n ∷ ps) (g ∷ gs) = map digit_char g ++ print ps gs

module _ (db : CharDb) where
  pub full_match-print :
      (ps : List Piece) (gs : List (List ℕ)) → Fits ps gs → full_match db ps (print ps gs) ≡ some gs
  unfolding full_match
  full_match-print [] [] h = refl
  full_match-print [] (g ∷ gs) h = absurd h
  full_match-print (lit x ∷ ps) gs h = rw (==_refl x) (full_match-print ps gs h)
  full_match-print (digits n ∷ ps) [] h = absurd h
  full_match-print (digits n ∷ ps) (g ∷ gs) (range, size, rest) =
      let read : take_digits db n (map digit_char g ++ print ps gs) ≡ some (g, print ps gs) =
        rw (← size) (take_digits-map db g (print ps gs) range) in
      ground (arith, read, full_match-print ps gs rest)

  pub full_match-Fits :
      (ps : List Piece) (s : Text) (gs : List (List ℕ)) → full_match db ps s ≡ some gs → Fits ps gs
  unfolding full_match
  full_match-Fits [] [] [] h = tt
  full_match-Fits [] [] (g ∷ gs) h = cc
  full_match-Fits [] (c ∷ s) gs h = cc
  full_match-Fits (lit x ∷ ps) [] gs h = cc
  full_match-Fits (lit x ∷ ps) (c ∷ s) gs h = full_match-Fits ps s gs (ground arith)
  full_match-Fits (digits n ∷ ps) s [] h = ground arith
  full_match-Fits (digits n ∷ ps) s (g ∷ gs) h = elim (Option-cases (take_digits db n s)) [
    | inl short ↦ absurd (ground arith)
    | inr ((ds, rest), read) ↦
        let (range, size) = take_digits_range db n s ds rest read in
        let same : ds ≡ g = ground arith in
        (rw same at range, rw same at size, full_match-Fits ps rest gs (ground arith))
  ]

-- `int` of a text of digits. Where the program calls it every character has passed `isdigit` or
-- `\d`, so the spaces, signs and underscores that `int` also takes do not occur; a digit that is
-- no decimal, such as a superscript, is refused with a `ValueError`.
module _ (db : CharDb) where
  unfoldable pub read_from : ℕ → Text → Outcome ℕ
  read_from n [] = ok n
  read_from n (c ∷ s) = elim (db.decimal c) [
    | none ↦ raises value_error
    | some d ↦ read_from (n * 10 + d) s
  ]

  unfoldable pub int_of : Text → Outcome ℕ
  unfolding read_from
  int_of [] = raises value_error
  int_of (c ∷ s) = read_from 0 (c ∷ s)

-- `text.isdigit()` and the like: no character fails the test, and there is one
unfoldable pub str_all : (ℕ → Bool) → Text → Bool
str_all p [] = false
str_all p (c ∷ []) = p c
str_all p (c ∷ d ∷ s) = p c && str_all p (d ∷ s)

pub int_of_lem : (db : CharDb) (s : Text) → is_empty s ≡ false → int_of db s ≡ read_from db 0 s
unfolding int_of
int_of_lem db [] h = cc
int_of_lem db (c ∷ s) h = refl

-- Every literal of the pattern is a printing character of ASCII.
abbrev pub PlainLits : List Piece → Type 0
PlainLits [] = Unit
PlainLits (lit x ∷ ps) = (33 ≤ x) × (x ≤ 126) × PlainLits ps
PlainLits (digits n ∷ ps) = PlainLits ps

pub print-Solid :
    (db : CharDb) (ps : List Piece) (gs : List (List ℕ))
    → PlainLits ps
    → Fits ps gs
    → Solid db (print ps gs)
print-Solid db [] gs l h = tt
print-Solid db (lit x ∷ ps) gs (low, high, l) h =
    (ground (arith, db.space_ascii x), print-Solid db ps gs l h)
print-Solid db (digits n ∷ ps) [] l h = tt
print-Solid db (digits n ∷ ps) (g ∷ gs) l (range, size, h) =
    All-append _ (map digit_char g) (print ps gs) (Solid-map-digit_char db g range)
      (print-Solid db ps gs l h)
