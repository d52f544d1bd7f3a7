-- ===== src/Finance/Commands.antt =====
-- The calls that the routers of the finance service make (services/finance-service/api/routers), in
-- any sequence, by any users.
pub mod Reachable
pub mod Atomic
use finty.Base.{ℕ, Option, List, [], ◌∷◌}
use finty.Base.Text.{Text}
use finty.Shared.Python.{Python}
use finty.Shared.Currency.{RawText}
use finty.Finance.ValueObjects.{AccountType, TransactionType, Raw}
use finty.Finance.Builders.{Categorizer}
use finty.Finance.Store.{Category, Db}
use finty.Finance.Translate.{Amount, Env}
use finty.Finance.Accounts.{
  create_account, rename_account, archive_account, delete_account, recompute_balance,
}
use finty.Finance.Transactions.{register_transaction, recategorize, delete_transaction}

-- A call with its arguments; the first number is the user who makes it.
pub data Call : Type 0 where
  create : Env → ℕ → RawText → Raw AccountType → Option Amount → Option RawText → Call
  rename : ℕ → Option ℕ → RawText → Call
  archive : ℕ → Option ℕ → Call
  remove : ℕ → Option ℕ → Call
  recompute : ℕ → Option ℕ → Call
  register :
      Env → ℕ → Option ℕ → Amount → Raw TransactionType → ℕ → Option Text → Option RawText → Call
  recategorise : Env → ℕ → Option ℕ → Option Text → Call
  delete : Env → ℕ → Option ℕ → Call

-- The tables of a new database with its categories.
abbrev pub empty : List Category → Db
empty categories = record {
  categories = categories;
  accounts = [];
  transactions = [];
  outbox = [];
  next_outbox_id = 1;
}

module _ ⦃p : Python⦄ (categorizer : Categorizer) where
  -- The tables after a call, whether it returned or raised.
  unfoldable pub run : Call → Db → Db
  run (create env user name kind initial currency) db =
      (create_account env user name kind initial currency db).1
  run (rename user id name) db = (rename_account user id name db).1
  run (archive user id) db = (archive_account user id db).1
  run (remove user id) db = (delete_account user id db).1
  run (recompute user id) db = (recompute_balance user id db).1
  run (register env user id amount kind day description category) db =
      (register_transaction categorizer env user id amount kind day description category db).1
  run (recategorise env user id name) db = (recategorize env user id name db).1
  run (delete env user id) db = (delete_transaction env user id db).1

  unfoldable pub run_all : List Call → Db → Db
  run_all [] db = db
  run_all (c ∷ calls) db = run_all calls (run c db)
