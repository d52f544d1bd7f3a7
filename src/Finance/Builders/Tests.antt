-- ===== src/Finance/Builders/Tests.antt =====
-- Drafts that the builders make.
use finty.Base.{◌≡◌, refl, false, none, some, [], ◌∷◌, if◌then◌else◌, leb}
use finty.Base.Int.{pos}
use finty.Base.Text.{codes, strip, text_eq}
use finty.Shared.Errors.{ok, ◌>>=◌, ◌>>◌}
use finty.Shared.Python.{Python, upper}
use finty.Shared.Currency.{validate_currency_code}
use finty.Finance.ValueObjects.{AccountDraft, AccountSnapshot, TransactionDraft, cash, expense}
use finty.Finance.Logic.{
  ensure_amount_not_zero, ensure_currency_matches, ensure_date_not_future, ensure_account_is_active,
}
use finty.Finance.Builders
use finty.Finance.Builders.Account as AccountBuilders
use finty.Finance.Builders.Draft.{IsDraft, build-IsDraft}
use finty.Finance.Builders.Drafted.{IsAccountDraft, build-IsAccountDraft}
use finty.Finance.Builders.{Categorizer, manual_category_confidence}
use finty.Finance.Store.{account_row, transaction_row, category_row}
use finty.Finance.Translate.{default_currency}

instance abbrev python : Python
python = record {
  upper_other = λ c. if leb 128 c then c ∷ [] else [];
  lower_other = λ c. c ∷ [];
  read_decimal = λ s. none;
}

abbrev wallet_builder : AccountBuilders.AccountBuilder
wallet_builder = record {
  user_id = some 7;
  name = some (codes " Wallet ");
  account_type = some cash;
  initial_balance = some (record { amount = pos 10000; currency = default_currency });
  currency = none;
}

abbrev wallet_draft : AccountDraft
wallet_draft = record {
  user_id = 7;
  name = codes "Wallet";
  account_type = cash;
  initial_balance = record { amount = pos 10000; currency = default_currency };
}

wallet_built : AccountBuilders.build wallet_builder ≡ ok wallet_draft
unfolding AccountBuilders.build AccountBuilders.build_fields AccountBuilders.build_with
    AccountBuilders.clean_name AccountBuilders.resolve_initial_balance ◌>>=◌ ◌>>◌ strip text_eq
wallet_built = refl

account_example : IsAccountDraft wallet_builder wallet_draft
account_example = build-IsAccountDraft wallet_builder wallet_built

abbrev lunch_builder : Builders.TransactionBuilder
lunch_builder = record Builders.transaction_builder {
  snapshot = some (record {
    account_id = 1;
    currency = default_currency;
    account_type = cash;
    is_archived = false;
    balance = record { amount = pos 10000; currency = default_currency };
  });
  amount = some (record { amount = pos 2500; currency = default_currency });
  transaction_type = some expense;
  occurred_on = some 10;
}

abbrev lunch_draft : TransactionDraft
lunch_draft = record {
  account_id = 1;
  amount = record { amount = pos 2500; currency = default_currency };
  transaction_type = expense;
  occurred_on = 10;
  description = [];
  category_name = none;
  categorization_source = none;
  confidence = none;
}

lunch_built : (Builders.build lunch_builder 20).0 ≡ ok lunch_draft
unfolding Builders.build Builders.build_fields Builders.build_with Builders.require_mandatory_fields
    Builders.resolve_category Builders.resolve_category_with ensure_amount_not_zero
    ensure_currency_matches ensure_date_not_future ensure_account_is_active validate_currency_code
    upper strip text_eq ◌>>=◌ ◌>>◌
lunch_built = refl

built_example : (x : AccountSnapshot) × (lunch_builder.snapshot ≡ some x) × IsDraft x lunch_draft
built_example = build-IsDraft lunch_builder 20 lunch_built
