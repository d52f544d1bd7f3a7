-- ===== src/Finance/Builders/Account.antt =====
-- `AccountBuilder` (services/finance-service/domain/builders.py).
use finty.Base.{ℕ, not, ◌&&◌, Option, none, some, [], ltb, length}
use finty.Base.Text.{Text, strip, text_eq}
use finty.Shared.Errors.{
  domain, validation_error, negative_balance_not_allowed, Result, ok, err, ◌>>=◌, ◌>>◌, raise_if,
}
use finty.Shared.Python.{Python}
use finty.Shared.Currency.{RawText, validate_currency_code}
use finty.Shared.Money.{Money, zero, is_negative}
use finty.Finance.ValueObjects.{
  AccountType, Raw, account_type_from_value, allows_negative_balance, AccountDraft,
}
use finty.Finance.Logic.{ensure_currency_matches, code, of_money}

abbrev pub max_account_name_length : ℕ
max_account_name_length = 120

pub record AccountBuilder : Type 0 where
  pub user_id : Option ℕ
  pub name : Option Text
  pub account_type : Option AccountType
  pub initial_balance : Option Money
  pub currency : Option Text

abbrev pub account_builder : AccountBuilder
account_builder = record {
  user_id = none;
  name = none;
  account_type = none;
  initial_balance = none;
  currency = none;
}

abbrev pub for_user : ℕ → AccountBuilder → AccountBuilder
for_user u b = record b { user_id = some u }

unfoldable pub named : RawText → AccountBuilder → Result AccountBuilder
named RawText.other b = err (domain validation_error)
named (RawText.text name) b = ok (record b { name = some name })

abbrev pub with_initial_balance : Money → AccountBuilder → AccountBuilder
with_initial_balance m b = record b { initial_balance = some m }

-- The checks of `build` on the name.
unfoldable pub clean_name : Text → Result Text
clean_name name = do
  let cleaned = strip name
  raise_if (text_eq cleaned []) (domain validation_error)
  raise_if (ltb max_account_name_length (length cleaned)) (domain validation_error)
  ok cleaned

module _ ⦃p : Python⦄ where
  unfoldable pub of_type : Raw AccountType → AccountBuilder → Result AccountBuilder
  of_type raw b = do t ← account_type_from_value raw; ok (record b { account_type = some t })

  unfoldable pub in_currency : RawText → AccountBuilder → Result AccountBuilder
  in_currency raw b = do c ← validate_currency_code raw; ok (record b { currency = some c })

  -- `_resolve_initial_balance`, on the balance and the currency.
  unfoldable pub resolve_initial_balance : Option Money → Option Text → Result Money
  resolve_initial_balance none none = err (domain validation_error)
  resolve_initial_balance none (some c) = zero (RawText.text c)
  resolve_initial_balance (some m) none = ok m
  resolve_initial_balance (some m) (some c) = do
    ensure_currency_matches (code (RawText.text c)) (of_money m)
    ok m

  -- `build` on the fields, when the owner, the name and the type are there.
  unfoldable pub build_with :
      ℕ → Text → AccountType → Option Money → Option Text → Result AccountDraft
  build_with user name t initial currency = do
    cleaned ← clean_name name
    balance ← resolve_initial_balance initial currency
    raise_if (is_negative balance && not (allows_negative_balance t))
        (domain negative_balance_not_allowed)
    ok (record { user_id = user; name = cleaned; account_type = t; initial_balance = balance })

  unfoldable pub build_fields :
      Option ℕ → Option Text → Option AccountType → Option Money → Option Text → Result AccountDraft
  build_fields (some u) (some n) (some t) m c = build_with u n t m c
  build_fields _ _ _ m c = err (domain validation_error)

  unfoldable pub build : AccountBuilder → Result AccountDraft
  unfolding build_fields
  build b = build_fields b.user_id b.name b.account_type b.initial_balance b.currency
