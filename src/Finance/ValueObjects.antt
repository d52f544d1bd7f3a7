-- ===== src/Finance/ValueObjects.antt =====
-- The enumerations and value objects of services/finance-service/domain/value_objects.py.
-- Identifiers are UUIDs, which are only compared, and dates are day ordinals: both are numbers.
use finty.Base.{ℕ, ◌^◌, Bool, true, false, not, ◌&&◌, Option, none, some, [], if◌then◌else◌}
use finty.Base.Int.{ℤ, pos, negsuc, ltb_ℤ}
use finty.Base.Text.{Text, codes, strip, text_eq}
use finty.Shared.Errors.{
  domain, validation_error, invalid_transaction_type, currency_mismatch, Result, ok, err, ◌>>=◌,
  ◌>>◌, raise_if,
}
use finty.Shared.Python.{Python, lower}
use finty.Shared.Currency.{RawText, validate_currency_code}
use finty.Shared.Money.{Money, negate}

pub data AccountType : Type 0 where
  cash bank credit : AccountType

pub data TransactionType : Type 0 where
  income expense : TransactionType

pub data CategorizationSource : Type 0 where
  ai rule manual mock : CategorizationSource

-- What `from_value` is given: a member, a `str`, or a value of another type.
pub data Raw (A : Type 0) : Type 0 where
  member : A → Raw A
  text : Text → Raw A
  other : Raw A

module _ ⦃p : Python⦄ where
  account_type_named : Text → Result AccountType
  account_type_named s =
      if text_eq s (codes "cash")
      then ok cash
      else if text_eq s (codes "bank")
      then ok bank
      else if text_eq s (codes "credit")
      then ok credit
      else err (domain validation_error)

  unfoldable pub account_type_from_value : Raw AccountType → Result AccountType
  unfolding account_type_named
  account_type_from_value (member t) = ok t
  account_type_from_value (text s) = account_type_named (lower (strip s))
  account_type_from_value other = err (domain validation_error)

  transaction_type_named : Text → Result TransactionType
  transaction_type_named s =
      if text_eq s (codes "income")
      then ok income
      else if text_eq s (codes "expense")
      then ok expense
      else err (domain invalid_transaction_type)

  unfoldable pub transaction_type_from_value : Raw TransactionType → Result TransactionType
  unfolding transaction_type_named
  transaction_type_from_value (member t) = ok t
  transaction_type_from_value (text s) = transaction_type_named (lower (strip s))
  transaction_type_from_value other = err (domain invalid_transaction_type)

abbrev pub allows_negative_balance : AccountType → Bool
allows_negative_balance credit = true
allows_negative_balance cash = false
allows_negative_balance bank = false

abbrev pub sign : TransactionType → ℤ
sign income = pos 1
sign expense = negsuc 0

-- A Python `float`. A finite double is a whole number of 2 ^ -1074, and the code only compares.
pub data Float : Type 0 where
  finite : ℤ → Float
  infinity minus_infinity nan : Float

unfoldable pub float_leb : Float → Float → Bool
float_leb (finite a) (finite b) = not (ltb_ℤ b a)
float_leb nan _ = false
float_leb _ nan = false
float_leb minus_infinity _ = true
float_leb _ infinity = true
float_leb infinity (finite _) = false
float_leb infinity minus_infinity = false
float_leb (finite _) minus_infinity = false

abbrev pub confidence_floor : Float
confidence_floor = finite (pos 0)

abbrev pub confidence_ceiling : Float
confidence_ceiling = finite (pos (2 ^ 1074))

abbrev pub default_confidence_threshold : Float
default_confidence_threshold = finite (pos (2 ^ 1073))

pub record CategorySuggestion : Type 0 where
  pub category_name : Text
  pub confidence : Float
  pub source : CategorizationSource

-- `__post_init__`. The confidence is what `float(confidence)` gives, `none` where it raises.
unfoldable pub category_suggestion :
    RawText → Option Float → CategorizationSource → Result CategorySuggestion
unfolding float_leb
category_suggestion RawText.other c s = err (domain validation_error)
category_suggestion (RawText.text n) none s = err (domain validation_error)
category_suggestion (RawText.text n) (some c) s =
    if text_eq (strip n) []
    then err (domain validation_error)
    else if float_leb confidence_floor c && float_leb c confidence_ceiling
    then ok (record { category_name = strip n; confidence = c; source = s })
    else err (domain validation_error)

unfoldable pub is_confident : Float → CategorySuggestion → Bool
unfolding float_leb
is_confident threshold s = float_leb threshold s.confidence

pub record TransactionDraft : Type 0 where
  pub account_id : ℕ
  pub amount : Money
  pub transaction_type : TransactionType
  pub occurred_on : ℕ
  pub description : Text
  pub category_name : Option Text
  pub categorization_source : Option CategorizationSource
  pub confidence : Option Float

pub record AccountDraft : Type 0 where
  pub user_id : ℕ
  pub name : Text
  pub account_type : AccountType
  pub initial_balance : Money

pub record AccountSnapshot : Type 0 where
  pub account_id : ℕ
  pub currency : Text
  pub account_type : AccountType
  pub is_archived : Bool
  pub balance : Money

module _ ⦃p : Python⦄ where
  unfoldable pub signed_amount : TransactionDraft → Result Money
  signed_amount d = if ltb_ℤ (pos 0) (sign d.transaction_type) then ok d.amount else negate d.amount

  -- `AccountSnapshot(...)`, with `__post_init__`.
  unfoldable pub account_snapshot :
      ℕ → RawText → Raw AccountType → Bool → Money → Result AccountSnapshot
  account_snapshot id currency kind archived balance = do
    account_type ← account_type_from_value kind
    code ← validate_currency_code currency
    raise_if (not (text_eq balance.currency code)) (domain currency_mismatch)
    ok (record {
      account_id = id;
      currency = code;
      account_type = account_type;
      is_archived = archived;
      balance = balance;
    })
