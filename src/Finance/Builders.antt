-- ===== src/Finance/Builders.antt =====
-- `TransactionBuilder` and `AccountBuilder` (services/finance-service/domain/builders.py). The fluent
-- methods return the new builder; `build` of a transaction also returns it, because it is used up.
pub mod Account
pub mod Draft
pub mod Drafted
pub mod Built
mod Tests
use finty.Base.{ℕ, ⊤, Bool, true, false, not, ◌||◌, ◌^◌, Option, none, some, [], if◌then◌else◌}
use finty.Base.Int.{pos}
use finty.Base.Text.{Text, strip, text_eq}
use finty.Shared.Errors.{
  domain, validation_error, negative_amount, Result, ok, err, ◌>>=◌, ◌>>◌, raise_if,
}
use finty.Shared.Python.{Python}
use finty.Shared.Currency.{RawText}
use finty.Shared.Money.{Money, is_negative}
use finty.Finance.ValueObjects.{
  TransactionType, CategorizationSource, manual, Raw, transaction_type_from_value, Float,
  confidence_ceiling, CategorySuggestion, TransactionDraft, AccountSnapshot,
}
use finty.Finance.Logic.{
  ensure_amount_not_zero, ensure_currency_matches, code, of_money, ensure_date_not_future,
  ensure_account_is_active, ensure_categorized,
}

-- An implementation of `Categorizer.categorize` (domain/interfaces.py).
abbrev pub Categorizer : Type 0
Categorizer = Text → Money → TransactionType → Result CategorySuggestion

abbrev pub manual_category_confidence : Float
manual_category_confidence = confidence_ceiling

pub record TransactionBuilder : Type 0 where
  pub snapshot : Option AccountSnapshot
  pub amount : Option Money
  pub transaction_type : Option TransactionType
  pub occurred_on : Option ℕ
  pub description : Text
  pub categorizer : Option Categorizer
  pub manual_category : Option Text
  pub today : Option ℕ
  pub consumed : Bool

-- `__init__`
abbrev pub transaction_builder : TransactionBuilder
transaction_builder = record {
  snapshot = none;
  amount = none;
  transaction_type = none;
  occurred_on = none;
  description = [];
  categorizer = none;
  manual_category = none;
  today = none;
  consumed = false;
}

abbrev pub for_account : AccountSnapshot → TransactionBuilder → TransactionBuilder
for_account s b = record b { snapshot = some s }

abbrev pub with_amount : Money → TransactionBuilder → TransactionBuilder
with_amount m b = record b { amount = some m }

abbrev pub occurred_on : ℕ → TransactionBuilder → TransactionBuilder
occurred_on day b = record b { occurred_on = some day }

-- The description is `None` or a `str`.
abbrev pub described_as : Option Text → TransactionBuilder → TransactionBuilder
described_as none b = record b { description = [] }
described_as (some s) b = record b { description = strip s }

abbrev pub as_of : ℕ → TransactionBuilder → TransactionBuilder
as_of day b = record b { today = some day }

abbrev pub is_set {ℓ} : {A : Type ℓ} → Option A → Bool
is_set none = false
is_set (some _) = true

unfoldable pub categorized_by : Categorizer → TransactionBuilder → Result TransactionBuilder
categorized_by c b = do
  raise_if (is_set b.manual_category) (domain validation_error)
  ok (record b { categorizer = some c })

unfoldable pub with_manual_category : RawText → TransactionBuilder → Result TransactionBuilder
with_manual_category RawText.other b = err (domain validation_error)
with_manual_category (RawText.text name) b = do
  raise_if (text_eq (strip name) []) (domain validation_error)
  raise_if (is_set b.categorizer) (domain validation_error)
  ok (record b { manual_category = some (strip name) })

unfoldable pub require_mandatory_fields : TransactionBuilder → Result ⊤
require_mandatory_fields b =
    raise_if
      (not (is_set b.snapshot)
        || not (is_set b.amount)
        || not (is_set b.transaction_type)
        || not (is_set b.occurred_on))
      (domain validation_error)

-- The name, the source and the confidence of the category.
abbrev pub Resolved : Type 0
Resolved = Option Text × Option CategorizationSource × Option Float

unfoldable pub resolve_manual : Option Text → Result Resolved
resolve_manual none = ok (none, none, none)
resolve_manual (some name) = do
  ensure_categorized (some name)
  ok (some name, some manual, some manual_category_confidence)

unfoldable pub resolve_category_with :
    Option Categorizer → Option Text → Text → Money → TransactionType → Result Resolved
unfolding resolve_manual
resolve_category_with none m d a t = resolve_manual m
resolve_category_with (some categorize) m d a t = do
  s ← categorize d a t
  ensure_categorized (some s.category_name)
  ok (some s.category_name, some s.source, some s.confidence)

-- `_resolve_category`, once the fields are there.
unfoldable pub resolve_category : TransactionBuilder → Money → TransactionType → Result Resolved
resolve_category b = resolve_category_with b.categorizer b.manual_category b.description

module _ ⦃p : Python⦄ where
  unfoldable pub of_type : Raw TransactionType → TransactionBuilder → Result TransactionBuilder
  of_type raw b = do
    t ← transaction_type_from_value raw
    ok (record b { transaction_type = some t })

  -- `build` on the fields, when all are there.
  unfoldable pub build_with :
      TransactionBuilder
      → ℕ
      → AccountSnapshot
      → Money
      → TransactionType
      → ℕ
      → Result TransactionDraft
  build_with b clock s amount t day = do
    ensure_amount_not_zero amount
    raise_if (is_negative amount) (domain negative_amount)
    ensure_currency_matches (code (RawText.text s.currency)) (of_money amount)
    ensure_date_not_future day b.today clock
    ensure_account_is_active s.is_archived
    (name, source, confidence) ← resolve_category b amount t
    ok (record {
      account_id = s.account_id;
      amount = amount;
      transaction_type = t;
      occurred_on = day;
      description = b.description;
      category_name = name;
      categorization_source = source;
      confidence = confidence;
    })

  unfoldable pub build_fields :
      TransactionBuilder
      → ℕ
      → Option AccountSnapshot
      → Option Money
      → Option TransactionType
      → Option ℕ
      → Result TransactionDraft
  build_fields b clock (some s) (some a) (some t) (some d) = build_with b clock s a t d
  build_fields b clock _ _ _ _ = err (domain validation_error)

  -- `build`; `clock` is `date.today()`. The builder that comes back is used up.
  unfoldable pub build : TransactionBuilder → ℕ → Result TransactionDraft × TransactionBuilder
  build b clock =
      let used : TransactionBuilder = record b { consumed = true } in
      if b.consumed then (err (domain validation_error), b) else (
        require_mandatory_fields b
            >> build_fields used clock b.snapshot b.amount b.transaction_type b.occurred_on,
        used,
      )
