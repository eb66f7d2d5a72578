-- ===== src/Leads/Language.antt =====
-- `_language_hint` of normalize.py.
use n8n_production_systems.Text.{Text, CharDb, codes, or_empty}
use n8n_production_systems.Text.Strip.{strip}
use n8n_production_systems.Text.Contains.{is_member, is_in}
use n8n_production_systems.Common.{
  Bool, false, ◌||◌, Option, none, some, if◌then◌else◌, List, [], ◌∷◌, ◌++◌,
}

abbrev pub allowed : List Text
allowed = codes "fi" ∷ codes "sv" ∷ codes "en" ∷ codes "other" ∷ []

abbrev pub sv_words : List Text
sv_words = codes " vill " ∷ codes " boka " ∷ codes " nästa " ∷ codes " och " ∷ codes " vecka " ∷ []

abbrev pub fi_words : List Text
fi_words =
    codes " tarvitsemme "
    ∷ codes " tarjouksen "
    ∷ codes " kiitos "
    ∷ codes " haluan "
    ∷ codes " tämä "
    ∷ []

-- any(word in padded for word in words)
any_word : Text → List Text → Bool
any_word padded [] = false
any_word padded (word ∷ words) = is_in word padded || any_word padded words

module _ (chars : CharDb) where
  -- the language that the texts look like
  unfoldable pub guess : Text → Option Text → Text
  unfolding any_word
  guess name message =
      let blob = chars.lower (name ++ codes " " ++ or_empty message) in
      let padded = codes " " ++ blob ++ codes " " in
      if is_in (codes "å") blob || any_word padded sv_words
      then codes "sv"
      else if is_in (codes "ä") blob || is_in (codes "ö") blob || any_word padded fi_words
      then codes "fi"
      else codes "other"

  unfoldable pub language_hint : Option Text → Text → Option Text → Text
  unfolding guess
  language_hint none name message = guess name message
  language_hint (some []) name message = guess name message
  language_hint (some (c ∷ s)) name message =
      let value = chars.lower (strip chars (c ∷ s)) in
      if is_member value allowed then value else guess name message
