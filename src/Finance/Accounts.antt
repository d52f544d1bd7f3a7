-- ===== src/Finance/Accounts.antt =====
-- `AccountService` (services/finance-service/services.py). A call gives its result, or what it
-- raises, and the tables afterwards. A malformed identifier is `none`.
pub mod Fetch
pub mod Calculate
pub mod Recompute
use finty.Base.{
  ℕ, ⊤, Bool, not, ◌&&◌, ◌||◌, ltb, ◌==◌, Option, none, some, List, [], ◌∷◌, map, find, keep,
  order_by, if◌then◌else◌,
}
use finty.Base.Int.{ℤ}
use finty.Base.Text.{Text}
use finty.Shared.Errors.{
  Error, domain, account_not_found, duplicate_account_name, account_has_transactions,
  integrity_error, uniq_account_name_per_user, transaction_account_fk, Result, ok, err,
}
use finty.Shared.Errors as Errors
use finty.Shared.Python.{Python}
use finty.Shared.Currency.{RawText, text}
use finty.Shared.Money.{Money, cents, money, money_eq}
use finty.Finance.ValueObjects.{AccountType, TransactionType, Raw}
use finty.Finance.Logic.{recompute}
use finty.Finance.Store.{
  Account, Transaction, Db, insert_account, set_balance, set_name, set_archived, delete_account_row,
}
use finty.Finance.Session.{Session, ◌>>=◌, ◌>>◌, pure, lift, gets, atomic}
use finty.Finance.Translate.{
  Amount, Env, resolve_currency, build_snapshot, account_draft, validate_account_name,
}

-- The one row that a query on a primary key selects, or what is raised where there is none.
abbrev pub found : {A : Type 0} → Option A → Error → Result A
found none e = err e
found (some a) e = ok a

abbrev pub owned_by : ℕ → ℕ → Account → Bool
owned_by user id a = a.user_id == user && a.id == id

-- `_fetch_account`. The lock makes other writers wait and reads the same row.
unfoldable pub fetch_account : ℕ → Option ℕ → Session Account
fetch_account user none db = (err (domain account_not_found), db)
fetch_account user (some id) db =
    lift (found (find (owned_by user id) db.accounts) (domain account_not_found)) db

-- `except IntegrityError`: the constraint on names is a business rule.
unfoldable pub duplicate_name : {A : Type 0} → Result A × Db → Result A × Db
duplicate_name (err (integrity_error uniq_account_name_per_user), db) =
    (err (domain duplicate_account_name), db)
duplicate_name r = r

unfoldable pub has_transactions : {A : Type 0} → Result A × Db → Result A × Db
has_transactions (err (integrity_error transaction_account_fk), db) =
    (err (domain account_has_transactions), db)
has_transactions r = r

-- A call that may raise before its block begins.
unfoldable pub before : {A B : Type 0} → Result A → Db → (A → Result B × Db) → Result B × Db
before (ok a) db k = k a
before (err e) db k = (err e, db)

unfoldable pub read : {A : Type 0} → Session A → Db → Result A
read m db = (m db).0

module _ ⦃p : Python⦄ where
  unfoldable pub create_account :
      Env
      → ℕ
      → RawText
      → Raw AccountType
      → Option Amount
      → Option RawText
      → Db
      → Result Account × Db
  create_account env user name kind initial currency db =
      before (account_draft user name kind initial (resolve_currency currency initial)) db λ draft.
        let a : Account = record {
          id = env.new_id;
          user_id = user;
          name = draft.name;
          type = draft.account_type;
          opening_balance = draft.initial_balance.amount;
          balance = draft.initial_balance.amount;
          currency = draft.initial_balance.currency;
          is_archived = Bool.false;
        } in
        duplicate_name (atomic (do insert_account a; pure a) db)

  unfoldable pub rename_account : ℕ → Option ℕ → RawText → Db → Result Account × Db
  rename_account user id name db = before (read (fetch_account user id) db) db λ a.
      before (validate_account_name name a) db λ cleaned.
        duplicate_name
          (atomic (do set_name a.id user cleaned; pure (record a { name = cleaned })) db)

  unfoldable pub archive_account : ℕ → Option ℕ → Db → Result Account × Db
  archive_account user id db = before (read (fetch_account user id) db) db λ a.
      if a.is_archived
      then (ok a, db)
      else atomic (do set_archived a.id; pure (record a { is_archived = Bool.true })) db

  unfoldable pub delete_account : ℕ → Option ℕ → Db → Result ⊤ × Db
  delete_account user id db =
      before (read (fetch_account user id) db) db
        λ a. has_transactions (atomic (do delete_account_row a.id; pure tt) db)

-- `ORDER BY occurred_on, created_at`
abbrev pub earlier : Transaction → Transaction → Bool
earlier s t =
    ltb s.occurred_on t.occurred_on
    || (s.occurred_on == t.occurred_on && not (ltb t.created_at s.created_at))

abbrev pub of_account : ℕ → Transaction → Bool
of_account id t = t.account_id == id

pub record BalanceAuditResult : Type 0 where
  pub account : Account
  pub persisted : Money
  pub calculated : Money

abbrev pub is_consistent : BalanceAuditResult → Bool
is_consistent r = money_eq r.persisted r.calculated

abbrev pub in_scope : Option ℕ → Account → Bool
in_scope none a = Bool.true
in_scope (some user) a = a.user_id == user

module _ ⦃p : Python⦄ where
  -- The list of pairs that `BalanceCalculator.recompute` is given.
  unfoldable pub movements : Text → List Transaction → Result (List (Money × TransactionType))
  movements currency [] = ok []
  movements currency (t ∷ rows) =
      Errors.◌>>=◌ (money (cents t.amount) (text currency))
        λ m. Errors.◌>>=◌ (movements currency rows) λ rest. ok ((m, t.type) ∷ rest)

  -- The opening balance with the movements applied.
  unfoldable pub calculate : Account → List Transaction → Result Money
  unfolding movements
  calculate a rows = Errors.◌>>=◌ (movements a.currency rows) λ ms.
      Errors.◌>>=◌ (money (cents a.opening_balance) (text a.currency))
        λ opening. recompute opening ms

  unfoldable pub recompute_balance : ℕ → Option ℕ → Db → Result Account × Db
  recompute_balance user id = atomic (do
    a ← fetch_account user id
    rows ← gets (λ db. order_by earlier (keep (of_account a.id) db.transactions))
    recomputed ← lift (calculate a rows)
    set_balance a.id recomputed.amount
    pure (record a { balance = recomputed.amount }))

  unfoldable pub audit_account : Account → List Transaction → Result BalanceAuditResult
  audit_account a rows = Errors.◌>>=◌ (money (cents a.balance) (text a.currency)) λ persisted.
      Errors.◌>>=◌ (calculate a (keep (of_account a.id) rows))
        λ calculated. ok (record { account = a; persisted = persisted; calculated = calculated })

  unfoldable pub audit_all : List Account → List Transaction → Result (List BalanceAuditResult)
  audit_all [] rows = ok []
  audit_all (a ∷ accounts) rows =
      Errors.◌>>=◌ (audit_account a rows)
        λ r. Errors.◌>>=◌ (audit_all accounts rows) λ rest. ok (r ∷ rest)

  -- `audit_balances`, in the order of the table: the source orders the report by owner and name.
  unfoldable pub audit_balances : Option ℕ → Db → Result (List BalanceAuditResult)
  unfolding audit_all
  audit_balances user db = audit_all (keep (in_scope user) db.accounts) db.transactions
