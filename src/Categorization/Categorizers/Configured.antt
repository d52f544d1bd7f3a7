-- ===== src/Categorization/Categorizers/Configured.antt =====
-- The service with the categorizers that the configuration can name.
use finty.Base.{◌≡◌, refl, subst, ◌⊎◌, inl, inr, Option, none, some, Bool-cases}
use finty.Base.Text.{Text, codes, strip, text_eq}
use finty.Shared.Errors.{ok, ◌>>=◌, ok-injective}
use finty.Shared.Python.{Python, upper}
use finty.Shared.Currency.{RawText}
use finty.Finance.ValueObjects.{
  TransactionType, Raw, mock, transaction_type_from_value, confidence_ceiling, float_leb,
  CategorySuggestion,
}
use finty.Categorization.Catalog.{Rule, fallback_by_type, keywords_by_type, all_category_names}
use finty.Categorization.Normalize.{Unicode, normalize_description}
use finty.Categorization.Categorizers.{
  Categorizer, ai_categorize, mock_categorize, rule_categorize, coerce_transaction_type,
  build_provider, get_categorizer, suggest,
}
use finty.Categorization.Categorizers.Rules.{
  ListedRule, IsRuled, IsConfidence, category_suggestion_lem, fallback-IsName,
  rule_categorize-IsRuled,
}

-- A category of the catalogue for a type.
abbrev pub IsCategoryOf : TransactionType → Text → Type 0
IsCategoryOf t name =
    (name ≡ fallback_by_type t)
    ⊎ ((r : Rule) × ListedRule r (keywords_by_type t) × (r.category ≡ name))

IsRuled-IsCategoryOf :
    (t : TransactionType) (s : Text) (g : CategorySuggestion)
    → IsRuled t s g
    → IsCategoryOf t g.category_name
IsRuled-IsCategoryOf t s g h = elim h.grounds [
  | inl (_, found) ↦ inr (found.the_rule, found.listed, found.named)
  | inr (_, name, _) ↦ inl name
]

abbrev Answers : Categorizer → Type 0
Answers c =
    (d : RawText) (t : TransactionType)
    → (g : CategorySuggestion) × (c d (Raw.member t) ≡ ok g) × IsCategoryOf t g.category_name

ceiling-IsConfidence : IsConfidence confidence_ceiling
unfolding float_leb
ceiling-IsConfidence = (refl, refl)

module _ ⦃p : Python⦄ where
  coerce-member : (t : TransactionType) → coerce_transaction_type (Raw.member t) ≡ t
  unfolding coerce_transaction_type transaction_type_from_value
  coerce-member t = refl

  mock-Answers : Answers (mock_categorize none (some confidence_ceiling) mock)
  unfolding mock_categorize
  mock-Answers d t = (
    record { category_name = fallback_by_type t; confidence = confidence_ceiling; source = mock },
    rw (coerce-member t) (
        category_suggestion_lem (fallback_by_type t) confidence_ceiling mock (fallback-IsName t)
          ceiling-IsConfidence),
    inl refl,
  )

module _ ⦃p : Python⦄ ⦃u : Unicode⦄ where
  rule-Answers : Answers rule_categorize
  rule-Answers d t =
      let (g, e, h) = rule_categorize-IsRuled d (Raw.member t) in
      (g, e, IsRuled-IsCategoryOf t (normalize_description d) g (rw (coerce-member t) at h))

  ai-Answers : Answers (ai_categorize none rule_categorize all_category_names)
  unfolding ai_categorize
  ai-Answers d t = rule-Answers d t

  build_provider-Answers : (name : Text) {c : Categorizer} → build_provider name ≡ ok c → Answers c
  unfolding build_provider
  build_provider-Answers name e = elim (Bool-cases (text_eq name (codes "RULE"))) [
    | inl y ↦ subst Answers (ok-injective (rw y at e)) rule-Answers
    | inr n ↦ elim (Bool-cases (text_eq name (codes "AI"))) [
      | inl y ↦ subst Answers (ok-injective (rw (n, y) at e)) ai-Answers
      | inr m ↦ elim (Bool-cases (text_eq name (codes "MOCK"))) [
        | inl y ↦ subst Answers (ok-injective (rw (n, m, y) at e)) mock-Answers
        | inr k ↦ absurd (cc (rw (n, m, k) at e))
      ]
    ]
  ]

  get_categorizer-Answers :
      (setting : Option Text) {c : Categorizer} → get_categorizer setting ≡ ok c → Answers c
  unfolding get_categorizer
  get_categorizer-Answers none e = build_provider-Answers (upper (strip (codes "RULE"))) e
  get_categorizer-Answers (some raw) e = build_provider-Answers (upper (strip raw)) e

  -- With any setting of the provider that the factory accepts and any description, the service
  -- returns a suggestion wherever the transaction type can be read, and its category is one of the
  -- catalogue for that type.
  pub suggest-answers :
      (setting : Option Text) (d : RawText) (raw : Raw TransactionType) {c : Categorizer}
      {t : TransactionType}
      → get_categorizer setting ≡ ok c
      → transaction_type_from_value raw ≡ ok t
      → (g : CategorySuggestion) × (suggest c d raw ≡ ok g) × IsCategoryOf t g.category_name
  unfolding suggest ◌>>=◌
  suggest-answers setting d raw {t = t} e k = rw k (get_categorizer-Answers setting e d t)
