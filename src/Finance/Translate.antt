-- ===== src/Finance/Translate.antt =====
-- The translations between rows and domain values in services/finance-service/services.py: snapshots,
-- drafts, columns and the facts of an event. They raise or return, and touch no table.
pub mod Inverse
pub mod Drafted
use finty.Base.{ℕ, Option, none, some}
use finty.Base.Text.{Text, codes}
use finty.Shared.Errors.{Result, ok, ◌>>=◌}
use finty.Shared.Python.{Python}
use finty.Shared.Decimal.{RawAmount}
use finty.Shared.Currency.{RawText, text}
use finty.Shared.Money.{Money, cents, money}
use finty.Finance.ValueObjects.{
  AccountType, TransactionType, Raw, member, TransactionDraft, AccountDraft, AccountSnapshot,
  account_snapshot,
}
use finty.Finance.Builders
use finty.Finance.Builders.{
  Categorizer, transaction_builder, for_account, with_amount, described_as,
}
use finty.Finance.Builders.Account as AccountBuilders
use finty.Finance.Events.{TransactionFacts}
use finty.Finance.Store.{Category, Account, Transaction}

abbrev pub default_currency : Text
default_currency = codes "COP"

-- An amount with its currency, or without.
pub data Amount : Type 0 where
  of_money : Money → Amount
  of_raw : RawAmount → Amount

-- The values that a call takes from outside: the ids that `uuid4` gives, the instant `_utcnow()`
-- and the day `date.today()`.
pub record Env : Type 0 where
  pub new_id : ℕ
  pub event_id : ℕ
  pub now : ℕ
  pub today : ℕ

-- `_resolve_currency`
unfoldable pub resolve_currency : Option RawText → Option Amount → RawText
resolve_currency (some c) _ = c
resolve_currency none (some (of_money m)) = text m.currency
resolve_currency none (some (of_raw _)) = text default_currency
resolve_currency none none = text default_currency

abbrev optional : {A : Type 0} → (A → Result Money) → Option A → Result (Option Money)
optional f none = ok none
optional f (some a) = f a >>= λ m. ok (some m)

module _ ⦃p : Python⦄ where
  -- `_as_money`
  unfoldable pub as_money : Amount → RawText → Result Money
  as_money (of_money m) c = ok m
  as_money (of_raw a) c = money a c

  unfoldable pub build_snapshot : Account → Result AccountSnapshot
  build_snapshot a = do
    balance ← money (cents a.balance) (text a.currency)
    account_snapshot a.id (text a.currency) (member a.type) a.is_archived balance

  -- The draft that `create_account` builds.
  unfoldable pub account_draft :
      ℕ → RawText → Raw AccountType → Option Amount → RawText → Result AccountDraft
  account_draft user name kind initial currency = do
    b₁ ← AccountBuilders.named name (AccountBuilders.for_user user AccountBuilders.account_builder)
    b₂ ← AccountBuilders.of_type kind b₁
    b₃ ← AccountBuilders.in_currency currency b₂
    balance ← optional (λ a. as_money a currency) initial
    AccountBuilders.build (record b₃ { initial_balance = balance })

  -- `_validate_account_name`
  unfoldable pub validate_account_name : RawText → Account → Result Text
  validate_account_name name a = do
    draft ← account_draft a.user_id name (member a.type) none (text a.currency)
    ok draft.name

  -- The draft that `register_transaction` builds. A category that is given is manual.
  unfoldable pub transaction_draft :
      Categorizer
      → ℕ
      → AccountSnapshot
      → Amount
      → Raw TransactionType
      → ℕ
      → Option Text
      → Option RawText
      → Result TransactionDraft
  transaction_draft categorizer today snapshot amount kind day description category = do
    m ← as_money amount (text snapshot.currency)
    b₁ ← Builders.of_type kind (with_amount m (for_account snapshot transaction_builder))
    let b₂ = described_as description (Builders.occurred_on day b₁)
    b₃ ← elim category [
      | some name ↦ Builders.with_manual_category name b₂
      | none ↦ Builders.categorized_by categorizer b₂
    ]
    (Builders.build b₃ today).0

  -- `_transaction_facts`
  unfoldable pub transaction_facts :
      Transaction → Account → Option Category → Result TransactionFacts
  transaction_facts t a category = do
    amount ← money (cents t.amount) (text a.currency)
    ok (record {
      user_id = a.user_id;
      transaction_id = t.id;
      account_id = a.id;
      amount = amount;
      transaction_type = t.type;
      category_name = elim category [ none ↦ none | some c ↦ some c.name ];
      categorization_source = t.categorization_source;
      occurred_on = t.occurred_on;
      description = t.description;
    })

-- `_draft_to_columns`, with the id and the instant that the row is given.
unfoldable pub draft_to_columns : TransactionDraft → Account → Option Category → Env → Transaction
draft_to_columns d a category env = record {
  id = env.new_id;
  account_id = a.id;
  amount = d.amount.amount;
  type = d.transaction_type;
  category_id = elim category [ none ↦ none | some c ↦ some c.id ];
  description = d.description;
  occurred_on = d.occurred_on;
  categorization_source = d.categorization_source;
  categorization_confidence = d.confidence;
  created_at = env.now;
}
