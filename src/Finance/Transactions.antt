-- ===== src/Finance/Transactions.antt =====
-- `TransactionService` (services/finance-service/services.py).
pub mod Facts
pub mod Register
pub mod Delete
pub mod Recategorize
pub mod Undo
use finty.Base.{ℕ, ⊤, not, ◌&&◌, ◌==◌, Bool, Option, none, some, find, List}
use mathlib.Core.Option
use finty.Base.Table.{lookup}
use finty.Base.Text.{Text, text_eq}
use finty.Shared.Errors.{
  domain, transaction_not_found, category_not_found, category_type_mismatch, Result, ok, err,
}
use finty.Shared.Python.{Python}
use finty.Shared.Currency.{RawText, text}
use finty.Shared.Money.{cents, money}
use finty.Finance.ValueObjects.{TransactionType, income, expense, manual, Raw, member}
use finty.Finance.Logic.{apply, revert, ensure_balance_allowed, ensure_categorized}
use finty.Finance.Builders.{Categorizer, manual_category_confidence}
use finty.Finance.Events.{
  event, transaction_manually_added, transaction_categorized, transaction_deleted,
}
use finty.Finance.Store.{
  Category, Account, Transaction, Db, account_row, transaction_row, category_row,
  insert_transaction, set_balance, set_category, delete_transaction_row, record_event,
}
use finty.Finance.Session.{Session, ◌>>=◌, ◌>>◌, pure, lift, gets, check, atomic}
use finty.Finance.Accounts.{found, fetch_account}
use finty.Finance.Translate.{
  Amount, Env, build_snapshot, transaction_draft, transaction_facts, draft_to_columns,
}

abbrev type_eq : TransactionType → TransactionType → Bool
type_eq income income = Bool.true
type_eq expense expense = Bool.true
type_eq income expense = Bool.false
type_eq expense income = Bool.false

abbrev named : Text → Category → Bool
named name c = text_eq c.name name

applicable : Option Category → TransactionType → Result (Option Category)
applicable none t = err (domain category_not_found)
applicable (some c) t = elim (type_eq c.applies_to t) [
  | Bool.true ↦ ok (some c)
  | Bool.false ↦ err (domain category_type_mismatch)
]

-- `_resolve_category`
unfoldable pub resolve_category : Option Text → TransactionType → Session (Option Category)
unfolding applicable
resolve_category none t db = (ok none, db)
resolve_category (some name) t db = lift (applicable (find (named name) db.categories) t) db

-- Whether a row belongs to an account of the user: the join of `get_transaction`.
abbrev pub owned : ℕ → Option Account → Bool
owned user none = Bool.false
owned user (some a) = a.user_id == user

abbrev pub owned_transaction : ℕ → ℕ → Db → Transaction → Bool
owned_transaction user id db t = t.id == id && owned user (lookup t.account_id db.accounts)

unfoldable pub get_transaction : ℕ → Option ℕ → Session Transaction
get_transaction user none db = (err (domain transaction_not_found), db)
get_transaction user (some id) db =
    lift
      (found (find (owned_transaction user id db) db.transactions) (domain transaction_not_found))
      db

-- `movement.account`, which the foreign key makes certain, and `movement.category`.
unfoldable pub account_of : Transaction → Session Account
account_of t db = lift (found (lookup t.account_id db.accounts) (domain transaction_not_found)) db

unfoldable pub category_of : Transaction → Db → Option Category
category_of t db = elim t.category_id [ none ↦ none | some id ↦ lookup id db.categories ]

module _ ⦃p : Python⦄ (categorizer : Categorizer) where
  unfoldable pub register_transaction :
      Env
      → ℕ
      → Option ℕ
      → Amount
      → Raw TransactionType
      → ℕ
      → Option Text
      → Option RawText
      → Db
      → Result Transaction × Db
  register_transaction env user account_id amount kind day description category_name = atomic (do
    account ← fetch_account user account_id
    snapshot ← lift (build_snapshot account)
    draft ←
        lift (
          transaction_draft categorizer env.today snapshot amount kind day description
            category_name)
    new_balance ← lift (apply snapshot.balance draft.amount draft.transaction_type)
    check (ensure_balance_allowed snapshot.account_type new_balance)
    category ← resolve_category draft.category_name draft.transaction_type
    let created = draft_to_columns draft account category env
    insert_transaction created
    set_balance account.id new_balance.amount
    facts ← lift (transaction_facts created account category)
    record_event (event transaction_manually_added facts env.now env.event_id)
    pure created)

module _ ⦃p : Python⦄ where
  -- The end of `recategorize`: the assignments to the row, its flush and the event.
  unfoldable pub store_category : Env → Transaction → Option Category → Session Transaction
  store_category env movement category = do
    let category_id = Option.map (λ (c : Category). c.id) category
    let changed : Transaction = record movement {
      category_id = category_id;
      categorization_source = some manual;
      categorization_confidence = some manual_category_confidence;
    }
    set_category movement.id category_id manual manual_category_confidence
    account ← account_of movement
    facts ← lift (transaction_facts changed account category)
    record_event (event transaction_categorized facts env.now env.event_id)
    pure changed

  unfoldable pub recategorize : Env → ℕ → Option ℕ → Option Text → Db → Result Transaction × Db
  recategorize env user id category_name = atomic (do
    movement ← get_transaction user id
    check (ensure_categorized category_name)
    category ← resolve_category category_name movement.type
    store_category env movement category)

  unfoldable pub delete_transaction : Env → ℕ → Option ℕ → Db → Result ⊤ × Db
  delete_transaction env user id = atomic (do
    movement ← get_transaction user id
    account ← fetch_account user (some movement.account_id)
    snapshot ← lift (build_snapshot account)
    amount ← lift (money (cents movement.amount) (text account.currency))
    reverted ← lift (revert snapshot.balance amount movement.type)
    check (ensure_balance_allowed snapshot.account_type reverted)
    category ← gets (category_of movement)
    facts ← lift (transaction_facts movement account category)
    delete_transaction_row movement.id
    set_balance account.id reverted.amount
    record_event (event transaction_deleted facts env.now env.event_id)
    pure tt)
