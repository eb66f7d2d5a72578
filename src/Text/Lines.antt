-- ===== src/Text/Lines.antt =====
-- The ends of lines: `str.splitlines` and the translation of the line ends of Windows.
use n8n_production_systems.Regex.{among}
use n8n_production_systems.Text.{Text, is_empty}
use n8n_production_systems.Common.{
  ◌≡◌, refl, arith, ℕ, Bool, false, ◌&&◌, ◌==◌, if◌then◌else◌, List, [], ◌∷◌, ◌++◌,
}

-- where `str.splitlines` ends a line
abbrev pub ends_line : ℕ → Bool
ends_line c = among (10 ∷ 11 ∷ 12 ∷ 13 ∷ 28 ∷ 29 ∷ 30 ∷ 133 ∷ 8232 ∷ 8233 ∷ []) c

begins_newline : Text → Bool
begins_newline [] = false
begins_newline (c ∷ s) = c == 10

-- text.replace("\r\n", "\n")
unfoldable pub unix : Text → Text
unfolding begins_newline
unix [] = []
unix (c ∷ s) = if c == 13 && begins_newline s then unix s else c ∷ unix s

-- The lines of a text whose line ends are one character each.
lines_from : Text → Text → List Text
lines_from line [] = if is_empty line then [] else line ∷ []
lines_from line (c ∷ s) =
    let rest = lines_from [] s in
    let more = lines_from (line ++ c ∷ []) s in if ends_line c then line ∷ rest else more

-- text.splitlines()
unfoldable pub lines : Text → List Text
unfolding lines_from
lines s = lines_from [] (unix s)

-- what reading a file in text mode does to the ends of its lines
unfoldable pub universal : Text → Text
unfolding begins_newline
universal [] = []
universal (c ∷ s) =
    let rest = universal s in
    let ended = if begins_newline s then rest else 10 ∷ rest in if c == 13 then ended else c ∷ rest

pub universal-universal : (s : Text) → universal (universal s) ≡ universal s
unfolding universal begins_newline
universal-universal [] = refl
universal-universal (c ∷ s) = ground (arith, universal-universal s)
