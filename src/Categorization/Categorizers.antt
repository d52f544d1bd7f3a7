-- ===== src/Categorization/Categorizers.antt =====
-- The categorizers of services/categorization-service/infra/categorizers.py, the service of
-- services.py and the factory of infra/factories.py. The amount is left out: no categorizer reads it.
-- `CategorySuggestion` and `TransactionType` are those of Finance.ValueObjects, of which
-- domain/value_objects.py is a copy.
pub mod Rules
pub mod Degraded
pub mod Configured
mod Tests
use finty.Base.{
  ◌^◌, ◌*◌, ◌-◌, Bool, true, false, not, ◌&&◌, ◌||◌, Option, none, some, List, [], ◌∷◌,
  if◌then◌else◌,
}
use finty.Base.Int.{pos}
use finty.Base.Text.{Text, codes, strip, text_eq}
use finty.Shared.Errors.{
  domain, validation_error, overflow_error, configuration_error, Result, ok, err, ◌>>=◌,
}
use finty.Shared.Python.{Python, upper}
use finty.Shared.Currency.{RawText}
use finty.Finance.ValueObjects.{
  TransactionType, expense, Raw, transaction_type_from_value, CategorizationSource, ai, rule, mock,
  Float, finite, float_leb, confidence_floor, confidence_ceiling, CategorySuggestion,
  category_suggestion,
}
use finty.Categorization.Catalog.{Rule, fallback_by_type, keywords_by_type, all_category_names}
use finty.Categorization.Normalize.{Unicode, normalize_description}
use finty.Categorization.Search.{search_words}

-- The doubles 0.75 and 0.20, in units of 2 ^ -1074.
abbrev pub match_confidence : Float
match_confidence = finite (pos (3 * 2 ^ 1072))

abbrev pub fallback_confidence : Float
fallback_confidence = finite (pos (3602879701896397 * 2 ^ 1020))

-- `_coerce_transaction_type`: what `from_value` raises is taken for an expense.
abbrev pub type_or_expense : Result TransactionType → TransactionType
type_or_expense (ok t) = t
type_or_expense (err _) = expense

-- The first entry of a dictionary whose pattern is found.
unfoldable pub first_match : List Rule → Text → Option Text
first_match [] s = none
first_match (r ∷ rs) s =
    if search_words false r.keywords s then some r.category else first_match rs s

unfoldable pub rule_match : TransactionType → Text → Option Text
rule_match t s = if text_eq s [] then none else first_match (keywords_by_type t) s

unfoldable pub rule_suggestion : TransactionType → Option Text → Result CategorySuggestion
rule_suggestion t (some name) = category_suggestion (RawText.text name) (some match_confidence) rule
rule_suggestion t none =
    category_suggestion (RawText.text (fallback_by_type t)) (some fallback_confidence) rule

-- What `float(confidence)` gives: a number, a `TypeError` or `ValueError`, or the `OverflowError` of
-- an integer beyond the range of doubles.
pub data RawConfidence : Type 0 where
  number : Float → RawConfidence
  not_numeric too_large : RawConfidence

-- What a provider does: it raises, or answers with something other than a pair, or with a pair.
pub data Answer : Type 0 where
  failed : Answer
  pair : RawText → RawConfidence → Answer

abbrev pub Provider : Type 0
Provider = RawText → Raw TransactionType → Answer

abbrev pub Categorizer : Type 0
Categorizer = RawText → Raw TransactionType → Result CategorySuggestion

abbrev pub float_ltb : Float → Float → Bool
float_ltb a b = float_leb a b && not (float_leb b a)

-- `max(a, b)` and `min(a, b)`, which keep `a` unless `b` is strictly beyond it.
abbrev pub float_max : Float → Float → Float
float_max a b = if float_ltb a b then b else a

abbrev pub float_min : Float → Float → Float
float_min a b = if float_ltb b a then b else a

unfoldable pub clamp : Float → Float
clamp c = float_min (float_max c confidence_floor) confidence_ceiling

unfoldable pub is_member : Text → List Text → Bool
is_member s [] = false
is_member s (t ∷ ts) = text_eq s t || is_member s ts

-- `_suggestion_or_fallback` on a name that is allowed.
unfoldable pub with_confidence :
    Result CategorySuggestion → Text → RawConfidence → Result CategorySuggestion
with_confidence fallback name not_numeric = fallback
with_confidence fallback name too_large = err overflow_error
with_confidence fallback name (number c) =
    category_suggestion (RawText.text (strip name)) (some (clamp c)) ai

-- `_suggestion_or_fallback`; `fallback` is what the fallback's `categorize` returns.
unfoldable pub suggestion_or_fallback :
    List Text → Result CategorySuggestion → Answer → Result CategorySuggestion
suggestion_or_fallback allowed fallback failed = fallback
suggestion_or_fallback allowed fallback (pair RawText.other c) = fallback
suggestion_or_fallback allowed fallback (pair (RawText.text name) c) =
    if is_member (strip name) allowed then with_confidence fallback name c else fallback

-- `AICategorizer.categorize`, with the provider, the fallback and the names that it was built with.
unfoldable pub ai_categorize : Option Provider → Categorizer → List Text → Categorizer
ai_categorize none fallback allowed d t = fallback d t
ai_categorize (some ask) fallback allowed d t =
    suggestion_or_fallback allowed (fallback d t) (ask d t)

module _ ⦃p : Python⦄ where
  unfoldable pub coerce_transaction_type : Raw TransactionType → TransactionType
  coerce_transaction_type raw = type_or_expense (transaction_type_from_value raw)

  -- `MockCategorizer.categorize`; `confidence` is what `float` makes of the configured one.
  unfoldable pub mock_categorize :
      Option RawText → Option Float → CategorizationSource → Categorizer
  mock_categorize (some name) confidence source d t = category_suggestion name confidence source
  mock_categorize none confidence source d t =
      category_suggestion (RawText.text (fallback_by_type (coerce_transaction_type t))) confidence
        source

module _ ⦃p : Python⦄ ⦃u : Unicode⦄ where
  -- `RuleBasedCategorizer.categorize`
  unfoldable pub rule_categorize : Categorizer
  rule_categorize d t =
      let kind = coerce_transaction_type t in
      rule_suggestion kind (rule_match kind (normalize_description d))

  -- The rows of `PROVIDER_BUILDERS`, by the name of the provider.
  unfoldable pub build_provider : Text → Result Categorizer
  build_provider name =
      if text_eq name (codes "RULE")
      then ok rule_categorize
      else if text_eq name (codes "AI")
      then ok (ai_categorize none rule_categorize all_category_names)
      else if text_eq name (codes "MOCK")
      then ok (mock_categorize none (some confidence_ceiling) mock)
      else err configuration_error

  -- `CategorizerFactory.get_categorizer`, on the value of `CATEGORIZER_PROVIDER`, if it is set.
  unfoldable pub get_categorizer : Option Text → Result Categorizer
  get_categorizer none = build_provider (upper (strip (codes "RULE")))
  get_categorizer (some raw) = build_provider (upper (strip raw))

-- `CategorizationService.suggest`
module _ ⦃p : Python⦄ where
  unfoldable pub suggest : Categorizer → RawText → Raw TransactionType → Result CategorySuggestion
  suggest categorizer d raw = do t ← transaction_type_from_value raw; categorizer d (Raw.member t)
