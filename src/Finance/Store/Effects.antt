-- ===== src/Finance/Store/Effects.antt =====
-- The tables after a statement that succeeded.
use finty.Base.{ℕ, ◌+◌, ◌<◌, ◌≡◌, true, false, none, [], ◌∷◌, ◌++◌, arith}
use finty.Base.Int.{ℤ, pos, ltb_ℤ, magnitude}
use finty.Base.Table.{lookup, update, erase}
use finty.Base.Text.{Text}
use finty.Finance.ValueObjects.{allows_negative_balance}
use finty.Shared.Errors.{ok, ◌>>◌}
use finty.Finance.Events.{DomainEvent}
use finty.Finance.Store.{
  Db, Account, Transaction, OutboxEvent, account_row, transaction_row, numeric_bound, is_set,
  insert_transaction, set_balance, record_event, insert_account, set_name, set_archived,
  delete_account_row, taken, references,
}

-- The row that `record_event` adds.
abbrev pub pending : ℕ → DomainEvent → OutboxEvent
pending id v = record {
  id = id;
  event = v;
  aggregate_id = v.payload.transaction_id;
  published_at = none;
  stream_id = none;
}

pub insert_transaction-ok :
    (t : Transaction) (db : Db) {db' : Db}
    → insert_transaction t db ≡ ok db'
    → (db' ≡ record db { transactions = db.transactions ++ (t ∷ []) })
      × (lookup t.id db.transactions ≡ none)
      × (is_set (lookup t.account_id db.accounts) ≡ true)
      × (magnitude t.amount < numeric_bound)
unfolding insert_transaction ◌>>◌
insert_transaction-ok t db e = ground arith

pub set_balance-ok :
    (id : ℕ) (n : ℤ) (db : Db) {db' : Db}
    → set_balance id n db ≡ ok db'
    → (db' ≡ record db { accounts = update id (λ a. record a { balance = n }) db.accounts })
      × (magnitude n < numeric_bound)
unfolding set_balance ◌>>◌
set_balance-ok id n db e = ground arith

pub record_event-ok :
    (v : DomainEvent) (db : Db) {db' : Db}
    → record_event v db ≡ ok db'
    → db' ≡ record db {
      outbox = db.outbox ++ (pending db.next_outbox_id v ∷ []);
      next_outbox_id = db.next_outbox_id + 1;
    }
unfolding record_event ◌>>◌
record_event-ok v db e = ground arith

pub insert_account-ok :
    (a : Account) (db : Db) {db' : Db}
    → insert_account a db ≡ ok db'
    → (db' ≡ record db { accounts = db.accounts ++ (a ∷ []) })
      × (lookup a.id db.accounts ≡ none)
      × (taken a.user_id a.name db.accounts ≡ false)
      × (ltb_ℤ a.opening_balance (pos 0) ≡ true → allows_negative_balance a.type ≡ true)
unfolding insert_account ◌>>◌
insert_account-ok a db e = ground arith

pub set_name-ok :
    (id user : ℕ) (name : Text) (db : Db) {db' : Db}
    → set_name id user name db ≡ ok db'
    → (db' ≡ record db { accounts = update id (λ a. record a { name = name }) db.accounts })
      × (taken user name (erase id db.accounts) ≡ false)
unfolding set_name ◌>>◌
set_name-ok id user name db e = ground arith

pub set_archived-ok :
    (id : ℕ) (db : Db) {db' : Db}
    → set_archived id db ≡ ok db'
    → db' ≡ record db { accounts = update id (λ a. record a { is_archived = true }) db.accounts }
unfolding set_archived
set_archived-ok id db e = ground arith

pub delete_account_row-ok :
    (id : ℕ) (db : Db) {db' : Db}
    → delete_account_row id db ≡ ok db'
    → (db' ≡ record db { accounts = erase id db.accounts })
      × (references id db.transactions ≡ false)
unfolding delete_account_row ◌>>◌
delete_account_row-ok id db e = ground arith
