-- ===== src/Categorization/Categorizers/Tests.antt =====
-- The theorems of the categorizers at concrete texts.
use finty.Base.{◌≡◌, refl, ◌⊎◌, true, false, none, some, List, [], ◌∷◌}
use finty.Base.Text.{Text, codes, strip, text_eq}
use finty.Shared.Errors.{ok}
use finty.Shared.Python.{Python, upper, lower}
use finty.Shared.Currency.{RawText}
use finty.Finance.ValueObjects.{
  expense, income, Raw, transaction_type_from_value, CategorySuggestion, nan, infinity,
}
use finty.Categorization.Catalog.{category_food}
use finty.Categorization.Normalize.{Unicode, normalize_description, sub_runs}
use finty.Categorization.Search.{search_words}
use finty.Categorization.Categorizers.{
  Provider, pair, number, rule_categorize, ai_categorize, coerce_transaction_type, is_member,
  build_provider, get_categorizer, suggest,
}
use finty.Categorization.Categorizers.Rules.{IsRuled, rule_categorize-IsRuled}
use finty.Categorization.Categorizers.Degraded.{
  IsTrusted, IsLeak, ai_categorize-answers, ai_categorize-IsLeak,
}
use finty.Categorization.Categorizers.Configured.{IsCategoryOf, suggest-answers}

instance abbrev python : Python
python = record { upper_other = λ c. []; lower_other = λ c. c ∷ []; read_decimal = λ s. none }

instance abbrev plain : Unicode
plain = record { nfkd = λ s. s; combining = λ c. text_eq (c ∷ []) (0x301 ∷ []) }

abbrev lunch : RawText
lunch = RawText.text (codes " Mercado, en  la ESQUINA!")

lunch_normal : normalize_description lunch ≡ codes "mercado en la esquina"
unfolding normalize_description lower sub_runs strip text_eq
lunch_normal = refl

market_words : List Text
market_words = codes "gas" ∷ codes "mercado" ∷ []

market : search_words false market_words (codes "el mercado gasta") ≡ true
unfolding search_words market_words
market = refl

rule_example :
    (g : CategorySuggestion) × (rule_categorize lunch (Raw.member expense) ≡ ok g)
    × IsRuled (coerce_transaction_type (Raw.member expense)) (normalize_description lunch) g
rule_example = rule_categorize-IsRuled lunch (Raw.member expense)

food_only : List Text
food_only = category_food ∷ []

abbrev sure : Provider
sure d t = pair (RawText.text category_food) (number infinity)

abbrev unsure : Provider
unsure d t = pair (RawText.text category_food) (number nan)

provider_example :
    (ai_categorize (some sure) rule_categorize food_only lunch (Raw.member expense)
      ≡ rule_categorize lunch (Raw.member expense))
    ⊎ ((g : CategorySuggestion) × (ai_categorize
            (some sure)
            rule_categorize
            food_only
            lunch
            (Raw.member expense)
          ≡ ok g)
        × IsTrusted food_only g)
unfolding strip text_eq food_only
provider_example =
    ai_categorize-answers sure rule_categorize food_only lunch (Raw.member expense)
      ((refl, refl), tt) (λ bad. bad.1 tt)

raise_example :
    IsLeak (ai_categorize (some unsure) rule_categorize food_only lunch (Raw.member expense))
unfolding strip text_eq food_only is_member
raise_example =
    ai_categorize-IsLeak unsure rule_categorize food_only lunch (Raw.member expense)
      ((refl, refl), tt) (refl, λ h. h)

suggest_example :
    (g : CategorySuggestion) × (suggest rule_categorize lunch (Raw.member income) ≡ ok g)
    × IsCategoryOf income g.category_name
unfolding get_categorizer build_provider upper strip text_eq transaction_type_from_value
suggest_example = suggest-answers none lunch (Raw.member income) refl refl
