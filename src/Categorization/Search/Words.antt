-- ===== src/Categorization/Search/Words.antt =====
-- What a search for keywords finds: a keyword that stands in the text as whole words.
use finty.Base.{
  ◌≡◌, refl, ap, ◌↔◌, ◌⊎◌, inl, inr, ℕ, Bool, true, false, List, [], ◌∷◌, ◌++◌, arith, ◌==◌, ==_iff,
  Bool-cases,
}
use finty.Base.Text.{Text}
use finty.Categorization.Normalize.{is_alphanumeric}
use finty.Categorization.Search.{
  starts_word, differs, match_word, any_word, match_here, search_words,
}

-- Whether a word's character stands at the end of a text.
abbrev pub ends_word : Bool → Text → Bool
ends_word before [] = before
ends_word before (c ∷ s) = ends_word (is_alphanumeric c) s

abbrev pub Listed : Text → List Text → Type 0
Listed w [] = ⊥
Listed w (v ∷ ws) = (w ≡ v) ⊎ Listed w ws

-- A listed word stands in the text after `prefix`, with a `\b` at its start and one at its end.
pub record HasWord (before : Bool) (ws : List Text) (s : Text) : Type 0 where
  pub prefix : Text
  pub word : Text
  pub rest : Text
  pub listed : Listed word ws
  pub parts : s ≡ prefix ++ (word ++ rest)
  pub starts : differs (ends_word before prefix) (starts_word (word ++ rest)) ≡ true
  pub ends : differs (ends_word (ends_word before prefix) word) (starts_word rest) ≡ true

-- One word at the head of a text.
abbrev Matches : Bool → Text → Text → Type 0
Matches before w s =
    (rest : Text) × (s ≡ w ++ rest) × (differs (ends_word before w) (starts_word rest) ≡ true)

match_word-Matches : (b : Bool) (w s : Text) → match_word b w s ≡ true → Matches b w s
unfolding match_word
match_word-Matches b [] s e = (s, refl, e)
match_word-Matches b (c ∷ w) [] e = cc
match_word-Matches b (c ∷ w) (d ∷ s) e = elim (Bool-cases (c == d)) [
  | inl same ↦
      let eq : c ≡ d = (==_iff c d).0 same in
      let (r, whole, ends) = match_word-Matches (is_alphanumeric d) w s (rw same at e) in
      (r, cc, rw eq ends)
  | inr other ↦ absurd (cc (rw other at e))
]

match_word-append :
    (b : Bool) (w s : Text)
    → differs (ends_word b w) (starts_word s) ≡ true
    → match_word b w (w ++ s) ≡ true
unfolding match_word
match_word-append b [] s e = e
match_word-append b (c ∷ w) s e =
    rw ((==_iff c c).1 refl) (match_word-append (is_alphanumeric c) w s e)

any_word-lists :
    (b : Bool) (ws : List Text) (s : Text)
    → any_word b ws s ≡ true
    → (w : Text) × Listed w ws × Matches b w s
unfolding any_word
any_word-lists b [] s e = cc
any_word-lists b (w ∷ ws) s e = elim (Bool-cases (match_word b w s)) [
  | inl yes_here ↦ (w, inl refl, match_word-Matches b w s yes_here)
  | inr not_here ↦
      let (v, listed, m) = any_word-lists b ws s (rw not_here at e) in (v, inr listed, m)
]

any_word-of_Listed :
    (b : Bool) (w : Text) (ws : List Text) (s : Text)
    → Listed w ws
    → match_word b w s ≡ true
    → any_word b ws s ≡ true
unfolding any_word
any_word-of_Listed b w [] s l e = absurd l
any_word-of_Listed b w (v ∷ ws) s (inl same) e = rw (← same) (rw e refl)
any_word-of_Listed b w (v ∷ ws) s (inr l) e = ground (arith, any_word-of_Listed b w ws s l e)

match_here-HasWord :
    (b : Bool) (ws : List Text) (s : Text) → match_here b ws s ≡ true → HasWord b ws s
unfolding match_here
match_here-HasWord b ws s e =
    let start : differs b (starts_word s) ≡ true = ground arith in
    let found : any_word b ws s ≡ true = ground arith in
    let (w, listed, (rest, parts, ends)) = any_word-lists b ws s found in
    record {
      prefix = [];
      word = w;
      rest = rest;
      listed = listed;
      parts = parts;
      starts = rw (← parts) start;
      ends = ends;
    }

HasWord-cons :
    (b : Bool) (ws : List Text) (c : ℕ) (s : Text)
    → HasWord (is_alphanumeric c) ws s
    → HasWord b ws (c ∷ s)
HasWord-cons b ws c s h = record {
  prefix = c ∷ h.prefix;
  word = h.word;
  rest = h.rest;
  listed = h.listed;
  parts = ap (λ t. c ∷ t) h.parts;
  starts = h.starts;
  ends = h.ends;
}

search_words-HasWord :
    (b : Bool) (ws : List Text) (s : Text) → search_words b ws s ≡ true → HasWord b ws s
unfolding search_words
search_words-HasWord b ws [] e = match_here-HasWord b ws [] e
search_words-HasWord b ws (c ∷ s) e = elim (Bool-cases (match_here b ws (c ∷ s))) [
  | inl here ↦ match_here-HasWord b ws (c ∷ s) here
  | inr later ↦
      HasWord-cons b ws c s (search_words-HasWord (is_alphanumeric c) ws s (rw later at e))
]

search_words-of_here :
    (b : Bool) (ws : List Text) (s : Text) → match_here b ws s ≡ true → search_words b ws s ≡ true
unfolding search_words
search_words-of_here b ws [] e = e
search_words-of_here b ws (c ∷ s) e = rw e refl

-- The search with the occurrence taken apart, by recursion on what stands before the word.
search_words-append :
    (b : Bool) (ws : List Text) (pre w rest : Text)
    → Listed w ws
    → differs (ends_word b pre) (starts_word (w ++ rest)) ≡ true
    → differs (ends_word (ends_word b pre) w) (starts_word rest) ≡ true
    → search_words b ws (pre ++ (w ++ rest)) ≡ true
unfolding search_words match_here
search_words-append b ws [] w rest l start stop =
    let found = any_word-of_Listed b w ws (w ++ rest) l (match_word-append b w rest stop) in
    search_words-of_here b ws (w ++ rest) (rw (start, found) refl)
search_words-append b ws (c ∷ pre) w rest l start stop =
    ground (arith, search_words-append (is_alphanumeric c) ws pre w rest l start stop)

-- The search finds what the pattern describes.
pub found_iff : (ws : List Text) (s : Text) → (search_words false ws s ≡ true) ↔ HasWord false ws s
found_iff ws s = (
  search_words-HasWord false ws s,
  λ h. rw h.parts (search_words-append false ws h.prefix h.word h.rest h.listed h.starts h.ends),
)

-- The word begins and ends with a letter or a digit.
abbrev pub IsEdged : Text → Type 0
IsEdged w = (starts_word w ≡ true) × (ends_word false w ≡ true)

-- A listed word stands in the text, and neither what is before it ends with a letter or a digit, nor
-- what is after it begins with one.
pub record IsFound (ws : List Text) (s : Text) : Type 0 where
  pub prefix : Text
  pub word : Text
  pub rest : Text
  pub listed : Listed word ws
  pub parts : s ≡ prefix ++ (word ++ rest)
  pub free_before : ends_word false prefix ≡ false
  pub free_after : starts_word rest ≡ false
