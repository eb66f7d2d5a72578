-- ===== src/Text/Words.antt =====
-- `"".join(value.split())`: the words of a text, put together with no space.
use mathlib.Core.List.{flatten}
use n8n_production_systems.Common.{
  ◌≡◌, refl, true, false, [], ◌∷◌, ◌++◌, List, append_assoc, arith, if◌then◌else◌,
}
use n8n_production_systems.Text.{Text, CharDb}
use n8n_production_systems.Text.Strip.{Solid}

-- a word that has ended; the empty word is none
emit : Text → List Text → List Text
emit [] ws = ws
emit (c ∷ w) ws = (c ∷ w) ∷ ws

module _ (db : CharDb) where
  -- the word so far, and the text that is left
  split_from : Text → Text → List Text
  unfolding emit
  split_from w [] = emit w []
  split_from w (c ∷ s) = elim (db.is_space c) [
    | true ↦ emit w (split_from [] s)
    | false ↦ split_from (w ++ c ∷ []) s
  ]

  unfoldable pub join_words : Text → Text
  unfolding split_from flatten
  join_words s = flatten (split_from [] s)

  unfoldable pub without_space : Text → Text
  without_space [] = []
  without_space (c ∷ s) = if db.is_space c then without_space s else c ∷ without_space s

flatten-emit : (w : Text) (ws : List Text) → flatten (emit w ws) ≡ w ++ flatten ws
unfolding emit flatten
flatten-emit [] ws = refl
flatten-emit (c ∷ w) ws = refl

module _ (db : CharDb) where
  flatten-split_from : (w s : Text) → flatten (split_from db w s) ≡ w ++ without_space db s
  unfolding split_from without_space flatten
  flatten-split_from w [] = flatten-emit w []
  flatten-split_from w (c ∷ s) = ground (
    arith,
    flatten-emit w (split_from db [] s),
    flatten-split_from [] s,
    flatten-split_from (w ++ c ∷ []) s,
    append_assoc w (c ∷ []) (without_space db s),
  )

  -- Splitting at the spaces and joining drops the spaces, and nothing else.
  pub join_words_lem : (s : Text) → join_words db s ≡ without_space db s
  unfolding join_words
  join_words_lem s = flatten-split_from [] s

  without_space-Solid : (s : Text) → Solid db s → without_space db s ≡ s
  unfolding without_space
  without_space-Solid [] h = refl
  without_space-Solid (c ∷ s) h = ground (arith, without_space-Solid s h.1)

  pub join_words-Solid : (s : Text) → Solid db s → join_words db s ≡ s
  join_words-Solid s h = rw join_words_lem (without_space-Solid s h)
