-- ===== src/Finance/Logic.antt =====
-- `BalanceCalculator` and `TransactionRules` (services/finance-service/domain/logic.py).
pub mod Balance
use finty.Base.{ℕ, ⊤, Bool, not, ◌&&◌, Option, none, some, List, [], ◌∷◌, ltb, if◌then◌else◌}
use finty.Base.Int.{pos, ltb_ℤ}
use finty.Base.Text.{Text, strip, text_eq}
use finty.Shared.Errors.{
  domain, zero_amount, currency_mismatch, future_transaction_date, archived_account,
  uncategorized_transaction, negative_balance_not_allowed, Result, ok, err, ◌>>=◌, ◌>>◌, raise_if,
}
use finty.Shared.Python.{Python}
use finty.Shared.Currency.{RawText, validate_currency_code}
use finty.Shared.Money.{Money, add, subtract, is_zero, is_negative}
use finty.Finance.ValueObjects.{AccountType, TransactionType, sign, allows_negative_balance}

module _ ⦃p : Python⦄ where
  -- `BalanceCalculator.apply`
  unfoldable pub apply : Money → Money → TransactionType → Result Money
  apply balance amount t =
      if ltb_ℤ (pos 0) (sign t) then add balance amount else subtract balance amount

  unfoldable pub revert : Money → Money → TransactionType → Result Money
  revert balance amount t =
      if ltb_ℤ (pos 0) (sign t) then subtract balance amount else add balance amount

  unfoldable pub recompute : Money → List (Money × TransactionType) → Result Money
  recompute balance [] = ok balance
  recompute balance ((amount, t) ∷ movements) = do
    next ← apply balance amount t
    recompute next movements

-- `TransactionRules`: a rule raises or does nothing.
unfoldable pub ensure_amount_not_zero : Money → Result ⊤
ensure_amount_not_zero amount = raise_if (is_zero amount) (domain zero_amount)

-- A `Money`, or a currency code.
pub data Currencied : Type 0 where
  of_money : Money → Currencied
  code : RawText → Currencied

module _ ⦃p : Python⦄ where
  currency_of : Currencied → Result Text
  currency_of (of_money m) = ok m.currency
  currency_of (code c) = validate_currency_code c

  unfoldable pub ensure_currency_matches : Currencied → Currencied → Result ⊤
  unfolding currency_of
  ensure_currency_matches expected actual = do
    e ← currency_of expected
    a ← currency_of actual
    raise_if (not (text_eq e a)) (domain currency_mismatch)

-- `today` is the injected date, and `clock` is `date.today()`.
unfoldable pub ensure_date_not_future : ℕ → Option ℕ → ℕ → Result ⊤
ensure_date_not_future occurred_on (some today) clock =
    raise_if (ltb today occurred_on) (domain future_transaction_date)
ensure_date_not_future occurred_on none clock =
    raise_if (ltb clock occurred_on) (domain future_transaction_date)

unfoldable pub ensure_account_is_active : Bool → Result ⊤
ensure_account_is_active is_archived = raise_if is_archived (domain archived_account)

unfoldable pub ensure_categorized : Option Text → Result ⊤
ensure_categorized none = err (domain uncategorized_transaction)
ensure_categorized (some name) =
    raise_if (text_eq (strip name) []) (domain uncategorized_transaction)

unfoldable pub ensure_balance_allowed : AccountType → Money → Result ⊤
ensure_balance_allowed t balance =
    raise_if (is_negative balance && not (allows_negative_balance t))
      (domain negative_balance_not_allowed)
