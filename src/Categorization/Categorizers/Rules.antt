-- ===== src/Categorization/Categorizers/Rules.antt =====
-- The keyword categorizer: it answers whatever it is given, and what it answers.
use finty.Base.{
  ◌≡◌, refl, sym, ◌∙◌, ◌⊎◌, inl, inr, true, false, none, some, List, [], ◌∷◌, ◌++◌, All, Bool-cases,
  Option-cases,
}
use finty.Base.Text.{Text, strip, text_eq, text_eq_iff}
use finty.Shared.Errors.{ok}
use finty.Shared.Python.{Python}
use finty.Shared.Currency.{RawText}
use finty.Finance.ValueObjects.{
  TransactionType, income, expense, Raw, CategorizationSource, rule, Float, float_leb,
  confidence_floor, confidence_ceiling, CategorySuggestion, category_suggestion,
}
use finty.Categorization.Catalog.{Rule, fallback_by_type, keywords_by_type}
use finty.Categorization.Normalize.{Unicode, normalize_description}
use finty.Categorization.Search.{search_words, differs, starts_word}
use finty.Categorization.Search.Words.{HasWord, ends_word, found_iff}
use finty.Categorization.Categorizers.{
  match_confidence, fallback_confidence, first_match, rule_match, rule_suggestion,
  coerce_transaction_type, rule_categorize,
}

abbrev pub ListedRule : Rule → List Rule → Type 0
ListedRule r [] = ⊥
ListedRule r (q ∷ rs) = (r ≡ q) ⊎ ListedRule r rs

-- A rule of the list has the category and a keyword in the text.
pub record IsRule (rs : List Rule) (s name : Text) : Type 0 where
  pub the_rule : Rule
  pub listed : ListedRule the_rule rs
  pub named : the_rule.category ≡ name
  pub keyword : HasWord false the_rule.keywords s

abbrev pub HasNoRule : List Rule → Text → Type 0
HasNoRule rs s = All (λ r. HasWord false r.keywords s → ⊥) rs

not-HasWord : (ws : List Text) (s : Text) → search_words false ws s ≡ false → HasWord false ws s → ⊥
not-HasWord ws s e h = cc (sym e ∙ (found_iff ws s).1 h)

IsRule-cons :
    (r : Rule) (rs : List Rule) (s name : Text) → IsRule rs s name → IsRule (r ∷ rs) s name
IsRule-cons r rs s name h = record {
  the_rule = h.the_rule;
  listed = inr h.listed;
  named = h.named;
  keyword = h.keyword;
}

first_match-some :
    (rs : List Rule) (s : Text) {name : Text} → first_match rs s ≡ some name → IsRule rs s name
unfolding first_match
first_match-some [] s e = cc
first_match-some (r ∷ rs) s {name = name} e = elim (Bool-cases (search_words false r.keywords s)) [
  | inl found ↦ record {
    the_rule = r;
    listed = inl refl;
    named = cc (rw found at e);
    keyword = (found_iff r.keywords s).0 found;
  }
  | inr other ↦ IsRule-cons r rs s name (first_match-some rs s (rw other at e))
]

first_match-none : (rs : List Rule) (s : Text) → first_match rs s ≡ none → HasNoRule rs s
unfolding first_match
first_match-none [] s e = tt
first_match-none (r ∷ rs) s e = elim (Bool-cases (search_words false r.keywords s)) [
  | inl found ↦ absurd (cc (rw found at e))
  | inr other ↦ (not-HasWord r.keywords s other, first_match-none rs s (rw other at e))
]

no_word_in_nothing :
    (a b c : Text)
    → [] ≡ a ++ (b ++ c)
    → differs (ends_word false a) (starts_word (b ++ c)) ≡ true
    → ⊥
no_word_in_nothing [] [] [] e d = cc
no_word_in_nothing [] [] (x ∷ c) e d = cc
no_word_in_nothing [] (x ∷ b) c e d = cc
no_word_in_nothing (x ∷ a) b c e d = cc

empty-HasWord : (ws : List Text) → HasWord false ws [] → ⊥
empty-HasWord ws h = no_word_in_nothing h.prefix h.word h.rest h.parts h.starts

empty-HasNoRule : (rs : List Rule) → HasNoRule rs []
empty-HasNoRule [] = tt
empty-HasNoRule (r ∷ rs) = (empty-HasWord r.keywords, empty-HasNoRule rs)

rule_match-some :
    (t : TransactionType) (s : Text) {name : Text}
    → rule_match t s ≡ some name
    → IsRule (keywords_by_type t) s name
unfolding rule_match
rule_match-some t s e = elim (Bool-cases (text_eq s [])) [
  | inl empty ↦ absurd (cc (rw empty at e))
  | inr other ↦ first_match-some (keywords_by_type t) s (rw other at e)
]

rule_match-none :
    (t : TransactionType) (s : Text) → rule_match t s ≡ none → HasNoRule (keywords_by_type t) s
unfolding rule_match
rule_match-none t s e = elim (Bool-cases (text_eq s [])) [
  | inl empty ↦ rw ((text_eq_iff s []).0 empty) (empty-HasNoRule (keywords_by_type t))
  | inr other ↦ first_match-none (keywords_by_type t) s (rw other at e)
]

-- A text that a suggestion keeps as its name.
abbrev pub IsName : Text → Type 0
IsName n = (strip n ≡ n) × (text_eq n [] ≡ false)

abbrev pub IsConfidence : Float → Type 0
IsConfidence c = (float_leb confidence_floor c ≡ true) × (float_leb c confidence_ceiling ≡ true)

pub category_suggestion_lem :
    (n : Text) (c : Float) (s : CategorizationSource)
    → IsName n
    → IsConfidence c
    → category_suggestion (RawText.text n) (some c) s
      ≡ ok (record { category_name = n; confidence = c; source = s })
unfolding category_suggestion
category_suggestion_lem n c s (same, full) (low, high) = rw (same, full, low, high) refl

catalog-IsName : (t : TransactionType) → All (λ r. IsName r.category) (keywords_by_type t)
unfolding strip text_eq
catalog-IsName expense = (
  (refl, refl),
  (
    (refl, refl),
    (
      (refl, refl),
      (
        (refl, refl),
        ((refl, refl), ((refl, refl), ((refl, refl), ((refl, refl), ((refl, refl), tt))))),
      ),
    ),
  ),
)
catalog-IsName income = ((refl, refl), ((refl, refl), ((refl, refl), ((refl, refl), tt))))

pub fallback-IsName : (t : TransactionType) → IsName (fallback_by_type t)
unfolding strip text_eq
fallback-IsName expense = (refl, refl)
fallback-IsName income = (refl, refl)

match-IsConfidence : IsConfidence match_confidence
unfolding float_leb
match-IsConfidence = (refl, refl)

fallback-IsConfidence : IsConfidence fallback_confidence
unfolding float_leb
fallback-IsConfidence = (refl, refl)

catalog_rule-IsName :
    (r : Rule) (rs : List Rule)
    → ListedRule r rs
    → All (λ q. IsName q.category) rs
    → IsName r.category
catalog_rule-IsName r [] l h = absurd l
catalog_rule-IsName r (q ∷ rs) (inl same) (h, _) = rw same h
catalog_rule-IsName r (q ∷ rs) (inr l) (_, h) = catalog_rule-IsName r rs l h

-- What the keyword categorizer may say of a text: the category of a rule with a keyword in it, or
-- the fallback where no rule has one.
pub record IsRuled (t : TransactionType) (s : Text) (g : CategorySuggestion) : Type 0 where
  pub by_rule : g.source ≡ rule
  pub grounds :
      ((g.confidence ≡ match_confidence) × IsRule (keywords_by_type t) s g.category_name)
      ⊎ ((g.confidence ≡ fallback_confidence)
          × (g.category_name ≡ fallback_by_type t)
          × HasNoRule (keywords_by_type t) s)

rule_suggestion-some :
    (t : TransactionType) (s name : Text)
    → IsRule (keywords_by_type t) s name
    → (g : CategorySuggestion) × (rule_suggestion t (some name) ≡ ok g) × IsRuled t s g
unfolding rule_suggestion
rule_suggestion-some t s name h =
    let clean : IsName name =
      rw (← h.named)
        (catalog_rule-IsName h.the_rule (keywords_by_type t) h.listed (catalog-IsName t)) in
    (
      record { category_name = name; confidence = match_confidence; source = rule },
      category_suggestion_lem name match_confidence rule clean match-IsConfidence,
      record { by_rule = refl; grounds = inl (refl, h) },
    )

rule_suggestion-none :
    (t : TransactionType) (s : Text)
    → HasNoRule (keywords_by_type t) s
    → (g : CategorySuggestion) × (rule_suggestion t none ≡ ok g) × IsRuled t s g
unfolding rule_suggestion
rule_suggestion-none t s h = (
  record { category_name = fallback_by_type t; confidence = fallback_confidence; source = rule },
  category_suggestion_lem (fallback_by_type t) fallback_confidence rule (fallback-IsName t)
      fallback-IsConfidence,
  record { by_rule = refl; grounds = inr (refl, refl, h) },
)

module _ ⦃p : Python⦄ ⦃u : Unicode⦄ where
  -- Whatever it is given as a description and as a type, the keyword categorizer returns: a
  -- category of the type (an expense where the type cannot be read) that has a keyword standing as
  -- whole words in the normalised description, or the fallback of the type where no category of
  -- the type has one.
  pub rule_categorize-IsRuled :
      (d : RawText) (t : Raw TransactionType)
      → (g : CategorySuggestion) × (rule_categorize d t ≡ ok g)
        × IsRuled (coerce_transaction_type t) (normalize_description d) g
  unfolding rule_categorize
  rule_categorize-IsRuled d t =
      let kind = coerce_transaction_type t in
      let s = normalize_description d in
      elim (Option-cases (rule_match kind s)) [
        | inl e ↦ rw e (rule_suggestion-none kind s (rule_match-none kind s e))
        | inr (name, e) ↦ rw e (rule_suggestion-some kind s name (rule_match-some kind s e))
      ]
