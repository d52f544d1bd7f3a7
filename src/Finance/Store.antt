-- ===== src/Finance/Store.antt =====
-- The tables of services/finance-service/models.py with the constraints that they declare, and the
-- statements on them. A statement that breaks a constraint raises and is rolled back by `atomic`.
-- The check constraints on `type` and `applies_to` are the enumerations that these columns have.
pub mod Effects
use finty.Base.{
  ℕ, ⊤, ◌+◌, ◌^◌, Bool, true, false, not, ◌&&◌, ◌||◌, Option, none, some, List, [], ◌∷◌, ◌++◌, ltb,
  leb, ◌==◌, length, find, if◌then◌else◌,
}
use finty.Base.Int.{ℤ, pos, magnitude, ltb_ℤ, eqb_ℤ}
use finty.Base.Table.{Row, lookup, update, erase}
use finty.Base.Text.{Text, text_eq}
use finty.Shared.Errors.{
  Error, data_error, integrity_error, uniq_account_name_per_user, ck_account_opening_balance_sign,
  ck_transaction_confidence_range, ck_account_currency_length, ck_transaction_amount_not_zero,
  transaction_account_fk, primary_key, uq_outbox_manually_added_once, uq_outbox_event_id, Result,
  ok, err, ◌>>=◌, ◌>>◌, raise_if,
}
use finty.Finance.ValueObjects.{
  AccountType, TransactionType, CategorizationSource, Float, float_leb, confidence_floor,
  confidence_ceiling, allows_negative_balance,
}
use finty.Finance.Events.{EventType, transaction_manually_added, DomainEvent}

-- What the tables hold.
pub record Category : Type 0 where
  pub id : ℕ
  pub name : Text
  pub applies_to : TransactionType

pub record Account : Type 0 where
  pub id : ℕ
  pub user_id : ℕ
  pub name : Text
  pub type : AccountType
  pub opening_balance : ℤ
  pub balance : ℤ
  pub currency : Text
  pub is_archived : Bool

pub record Transaction : Type 0 where
  pub id : ℕ
  pub account_id : ℕ
  pub amount : ℤ
  pub type : TransactionType
  pub category_id : Option ℕ
  pub description : Text
  pub occurred_on : ℕ
  pub categorization_source : Option CategorizationSource
  pub categorization_confidence : Option Float
  pub created_at : ℕ

-- `message` is a function of the event, so the row keeps the event.
pub record OutboxEvent : Type 0 where
  pub id : ℕ
  pub event : DomainEvent
  pub aggregate_id : ℕ
  pub published_at : Option ℕ
  pub stream_id : Option ℕ

-- `next_outbox_id` is the identity column's next value.
pub record Db : Type 0 where
  pub categories : List Category
  pub accounts : List Account
  pub transactions : List Transaction
  pub outbox : List OutboxEvent
  pub next_outbox_id : ℕ

instance abbrev pub account_row : Row Account
account_row = record { key = λ a. a.id }

instance abbrev pub transaction_row : Row Transaction
transaction_row = record { key = λ t. t.id }

instance abbrev pub category_row : Row Category
category_row = record { key = λ c. c.id }

instance abbrev pub outbox_row : Row OutboxEvent
outbox_row = record { key = λ e. e.id }

-- What a `Numeric(14, 2)` column holds, in cents.
abbrev pub numeric_bound : ℕ
numeric_bound = 10 ^ 14

abbrev pub overflows : ℤ → Bool
overflows n = leb numeric_bound (magnitude n)

abbrev pub taken : ℕ → Text → List Account → Bool
taken user name [] = false
taken user name (a ∷ m) = (a.user_id == user && text_eq a.name name) || taken user name m

abbrev pub is_set {ℓ} : {A : Type ℓ} → Option A → Bool
is_set none = false
is_set (some _) = true

-- A statement on the tables: it raises, or leaves the new tables.
abbrev pub Statement : Type 0
Statement = Db → Result Db

-- `INSERT INTO finance_account`
unfoldable pub insert_account : Account → Statement
insert_account a db = do
  raise_if (ltb 120 (length a.name)) data_error
  raise_if (overflows a.opening_balance || overflows a.balance) data_error
  raise_if (not (length a.currency == 3)) (integrity_error ck_account_currency_length)
  raise_if (ltb_ℤ a.opening_balance (pos 0) && not (allows_negative_balance a.type))
      (integrity_error ck_account_opening_balance_sign)
  raise_if (is_set (lookup a.id db.accounts)) (integrity_error primary_key)
  raise_if (taken a.user_id a.name db.accounts) (integrity_error uniq_account_name_per_user)
  ok (record db { accounts = db.accounts ++ (a ∷ []) })

-- `UPDATE finance_account SET balance = ... WHERE id = ...`
unfoldable pub set_balance : ℕ → ℤ → Statement
set_balance id balance db = do
  raise_if (overflows balance) data_error
  ok (record db { accounts = update id (λ a. record a { balance = balance }) db.accounts })

unfoldable pub set_name : ℕ → ℕ → Text → Statement
set_name id user name db = do
  raise_if (ltb 120 (length name)) data_error
  raise_if (taken user name (erase id db.accounts)) (integrity_error uniq_account_name_per_user)
  ok (record db { accounts = update id (λ a. record a { name = name }) db.accounts })

unfoldable pub set_archived : ℕ → Statement
set_archived id db =
    ok (record db { accounts = update id (λ a. record a { is_archived = true }) db.accounts })

abbrev pub references : ℕ → List Transaction → Bool
references id [] = false
references id (t ∷ m) = t.account_id == id || references id m

-- `DELETE FROM finance_account WHERE id = ...`, which the foreign key restricts.
unfoldable pub delete_account_row : ℕ → Statement
delete_account_row id db = do
  raise_if (references id db.transactions) (integrity_error transaction_account_fk)
  ok (record db { accounts = erase id db.accounts })

-- `ck_transaction_confidence_range`
abbrev confidence_in_range : Option Float → Bool
confidence_in_range none = true
confidence_in_range (some c) = float_leb confidence_floor c && float_leb c confidence_ceiling

-- `INSERT INTO finance_transaction`
unfoldable pub insert_transaction : Transaction → Statement
insert_transaction t db = do
  raise_if (ltb 255 (length t.description)) data_error
  raise_if (overflows t.amount) data_error
  raise_if (eqb_ℤ t.amount (pos 0)) (integrity_error ck_transaction_amount_not_zero)
  raise_if (not (confidence_in_range t.categorization_confidence))
      (integrity_error ck_transaction_confidence_range)
  raise_if (is_set (lookup t.id db.transactions)) (integrity_error primary_key)
  raise_if (not (is_set (lookup t.account_id db.accounts))) (integrity_error transaction_account_fk)
  ok (record db { transactions = db.transactions ++ (t ∷ []) })

unfoldable pub set_category : ℕ → Option ℕ → CategorizationSource → Float → Statement
set_category id category source confidence db = ok (record db {
  transactions =
      update id
        (λ t. record t {
          category_id = category;
          categorization_source = some source;
          categorization_confidence = some confidence;
        })
        db.transactions;
})

unfoldable pub delete_transaction_row : ℕ → Statement
delete_transaction_row id db = ok (record db { transactions = erase id db.transactions })

abbrev is_event : ℕ → EventType → OutboxEvent → Bool
is_event aggregate transaction_manually_added e = elim e.event.event_type [
  | transaction_manually_added ↦ e.aggregate_id == aggregate
  | _ ↦ false
]
is_event aggregate _ e = false

abbrev repeats : DomainEvent → ℕ → List OutboxEvent → Bool
repeats v aggregate [] = false
repeats v aggregate (e ∷ m) =
    e.event.event_id == v.event_id || is_event aggregate v.event_type e || repeats v aggregate m

-- `SqlAlchemyOutbox.record` (infra/outbox.py), with the two unique indexes of `outbox_event`.
unfoldable pub record_event : DomainEvent → Statement
record_event v db = do
  raise_if (repeats v v.payload.transaction_id db.outbox) (integrity_error uq_outbox_event_id)
  ok (record db {
    outbox =
        db.outbox
        ++ (record {
          id = db.next_outbox_id;
          event = v;
          aggregate_id = v.payload.transaction_id;
          published_at = none;
          stream_id = none;
        }
            ∷ []);
    next_outbox_id = db.next_outbox_id + 1;
  })
