-- ===== src/Categorization/Search.antt =====
-- The patterns of `_compile_rules` (services/categorization-service/infra/categorizers.py):
-- `\b(?:word|word|...)\b`, searched in a normalised description.
pub mod Words
use finty.Base.{
  ◌≡◌, refl, ◌↔◌, ◌⊎◌, inl, inr, ℕ, Bool, true, false, ◌&&◌, ◌||◌, not, List, [], ◌∷◌, ◌++◌, leb,
  ◌==◌, arith, if◌then◌else◌,
}
use finty.Base.Text.{Text}
use finty.Categorization.Normalize.{is_alphanumeric}

-- `\w` on a normalised text, which has no other characters than `is_alphanumeric` and the space.
abbrev pub starts_word : Text → Bool
starts_word [] = false
starts_word (c ∷ s) = is_alphanumeric c

-- `\b`: exactly one of the neighbours is a word's.
abbrev pub differs : Bool → Bool → Bool
differs true b = not b
differs false b = b

-- `word\b` at the head of a text. The flag says whether a word's character stands before.
unfoldable pub match_word : Bool → Text → Text → Bool
match_word before [] s = differs before (starts_word s)
match_word before (c ∷ w) [] = false
match_word before (c ∷ w) (d ∷ s) = c == d && match_word (is_alphanumeric d) w s

any_word : Bool → List Text → Text → Bool
any_word before [] s = false
any_word before (w ∷ ws) s = match_word before w s || any_word before ws s

match_here : Bool → List Text → Text → Bool
unfolding any_word
match_here before ws s = differs before (starts_word s) && any_word before ws s

-- `pattern.search(s)`
unfoldable pub search_words : Bool → List Text → Text → Bool
unfolding match_here match_word
search_words before ws [] = match_here before ws []
search_words before ws (c ∷ s) =
    match_here before ws (c ∷ s) || search_words (is_alphanumeric c) ws s
