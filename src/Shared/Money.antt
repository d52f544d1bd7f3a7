-- ===== src/Shared/Money.antt =====
-- `Money` (services/finance-service/domain/shared/value_objects.py). The operations take a `Money`:
-- the guard against operands of other types has no counterpart in a typed model.
pub mod Laws
use finty.Base.{⊤, Bool, ◌&&◌, not}
use finty.Base.Int.{ℤ, pos, negsuc, neg, ◌+ℤ◌, ◌-ℤ◌, ltb_ℤ, eqb_ℤ}
use finty.Base.Text.{Text, text_eq}
use finty.Shared.Errors.{domain, currency_mismatch, Result, ok, ◌>>=◌, ◌>>◌, raise_if}
use finty.Shared.Python.{finite, Python}
use finty.Shared.Decimal.{RawAmount, decimal, coerce_amount}
use finty.Shared.Currency.{RawText, text, validate_currency_code}

-- The amount in cents, and the currency's code.
pub record Money : Type 0 where
  pub amount : ℤ
  pub currency : Text

-- A decimal with two places, in cents.
abbrev pub cents : ℤ → RawAmount
cents n = decimal (finite n (negsuc 1))

module _ ⦃p : Python⦄ where
  -- `Money(amount, currency)`, with `__post_init__`.
  unfoldable pub money : RawAmount → RawText → Result Money
  money a c = do
    amount ← coerce_amount a
    currency ← validate_currency_code c
    ok (record { amount = amount; currency = currency })

  unfoldable pub zero : RawText → Result Money
  zero c = money (decimal (finite (pos 0) (pos 0))) c

  -- `_require_same_currency`
  unfoldable pub require_same_currency : Money → Money → Result ⊤
  require_same_currency a b =
      raise_if (not (text_eq a.currency b.currency)) (domain currency_mismatch)

  unfoldable pub add : Money → Money → Result Money
  add a b = do require_same_currency a b; money (cents (a.amount +ℤ b.amount)) (text a.currency)

  unfoldable pub subtract : Money → Money → Result Money
  subtract a b = do
    require_same_currency a b
    money (cents (a.amount -ℤ b.amount)) (text a.currency)

  unfoldable pub negate : Money → Result Money
  negate a = money (cents (neg a.amount)) (text a.currency)

  -- `__lt__`
  unfoldable pub less : Money → Money → Result Bool
  less a b = do require_same_currency a b; ok (ltb_ℤ a.amount b.amount)

abbrev pub is_zero : Money → Bool
is_zero a = eqb_ℤ a.amount (pos 0)

abbrev pub is_negative : Money → Bool
is_negative a = ltb_ℤ a.amount (pos 0)

-- The `__eq__` of the dataclass.
abbrev pub money_eq : Money → Money → Bool
money_eq a b = eqb_ℤ a.amount b.amount && text_eq a.currency b.currency
