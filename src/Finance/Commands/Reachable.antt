-- ===== src/Finance/Commands/Reachable.antt =====
-- The tables that the calls can reach.
use finty.Base.{ℕ, ◌≡◌, refl, sym, ◌∙◌, Bool, true, false, Option, List, [], ◌∷◌, if◌then◌else◌}
use finty.Base.Table.{update-IsKeyed}
use finty.Base.Text.{Text}
use finty.Shared.Errors.{Result, ok}
use finty.Shared.Python.{Python}
use finty.Shared.Currency.{RawText}
use finty.Finance.ValueObjects.{AccountType, TransactionType, Raw}
use finty.Finance.Builders.{Categorizer}
use finty.Finance.Store.{
  Account, Category, Db, account_row, transaction_row, set_name, set_archived, insert_account,
  delete_account_row,
}
use finty.Finance.Store.Effects.{
  insert_account-ok, set_name-ok, set_archived-ok, delete_account_row-ok,
}
use finty.Finance.Session.{atomic-err}
use finty.Finance.Translate.{Amount, Env}
use finty.Finance.Accounts.{
  create_account, rename_account, archive_account, delete_account, recompute_balance,
}
use finty.Finance.Accounts.Recompute.{IsRecomputed, recompute-IsRecomputed}
use finty.Finance.Transactions.{register_transaction, recategorize, delete_transaction}
use finty.Finance.Transactions.Register.{register-IsRegistered}
use finty.Finance.Transactions.Delete.{delete-IsDeleted}
use finty.Finance.Transactions.Recategorize.{recategorize-IsRecategorized}
use finty.Finance.Invariant.{IsValid}
use finty.Finance.Invariant.Calls.{register-IsValid}
use finty.Finance.Invariant.Deleted.{delete-IsValid}
use finty.Finance.Invariant.Recategorized.{recategorize-IsValid}
use finty.Finance.Invariant.Moved.{with_balance, with_balance-IsSound, moved-IsSettled}
use finty.Finance.Invariant.Kept.{
  any-keeps, statement-keeps, before-keeps, duplicate_name-tables, has_transactions-tables,
}
use finty.Finance.Invariant.Accounts.{IsCosmetic, cosmetic-IsValid, append-IsValid, erase-IsValid}
use finty.Finance.Commands.{
  Call, create, rename, archive, remove, recompute, register, recategorise, delete, empty, run,
  run_all,
}

named-IsCosmetic : (n : Text) → IsCosmetic (λ a. record a { name = n })
named-IsCosmetic n = record {
  id = λ a. refl;
  type = λ a. refl;
  opening = λ a. refl;
  balance = λ a. refl;
}

archived-IsCosmetic : IsCosmetic (λ a. record a { is_archived = true })
archived-IsCosmetic = record {
  id = λ a. refl;
  type = λ a. refl;
  opening = λ a. refl;
  balance = λ a. refl;
}

insert-keeps :
    (a : Account) (db db' : Db)
    → IsValid db
    → a.balance ≡ a.opening_balance
    → insert_account a db ≡ ok db'
    → IsValid db'
insert-keeps a db db' v same e =
    let (is, new, _, allowed) = insert_account-ok a db e in
    rw is (append-IsValid db a v new same (rw same allowed))

if-keeps :
    {A : Type 0} (b : Bool) (db : Db) (x y : Result A × Db)
    → IsValid x.1
    → IsValid y.1
    → IsValid (if b then x else y).1
if-keeps true db x y h k = h
if-keeps false db x y h k = k

name-keeps :
    (id user : ℕ) (n : Text) (db db' : Db)
    → IsValid db
    → set_name id user n db ≡ ok db'
    → IsValid db'
name-keeps id user n db db' v e =
    rw (set_name-ok id user n db e).0 (cosmetic-IsValid db id _ (named-IsCosmetic n) v)

flag-keeps : (id : ℕ) (db db' : Db) → IsValid db → set_archived id db ≡ ok db' → IsValid db'
flag-keeps id db db' v e =
    rw (set_archived-ok id db e) (cosmetic-IsValid db id _ archived-IsCosmetic v)

row-keeps : (id : ℕ) (db db' : Db) → IsValid db → delete_account_row id db ≡ ok db' → IsValid db'
row-keeps id db db' v e =
    let (is, free) = delete_account_row-ok id db e in rw is (erase-IsValid db id v free)

-- The balance is what it was already.
unchanged-keeps :
    (user : ℕ) (id : Option ℕ) (db : Db) (b : Account) (db' : Db)
    → IsValid db
    → IsRecomputed user id db b db'
    → IsValid db'
unchanged-keeps user id db b db' v r =
    let a = r.account in
    let s = v.settled a.id a r.found in
    rw r.tables (record {
      account_keys =
          update-IsKeyed a.id (with_balance r.balance) db.accounts (λ x. refl) v.account_keys;
      transaction_keys = v.transaction_keys;
      settled =
          moved-IsSettled db a r.balance db.transactions v r.found r.exact
            (rw (r.exact ∙ sym s.consistent) s.allowed) (λ k _. refl);
      sound = with_balance-IsSound a.id r.balance db.accounts db.transactions v.sound;
    })

module _ ⦃p : Python⦄ where
  create-keeps :
      (env : Env) (user : ℕ) (name : RawText) (kind : Raw AccountType) (initial : Option Amount)
      (currency : Option RawText) (db : Db)
      → IsValid db
      → IsValid (create_account env user name kind initial currency db).1
  unfolding create_account
  create-keeps env user name kind initial currency db v = before-keeps _ db _ v (λ d e.
      rw (duplicate_name-tables _)
        (statement-keeps _ _ db v (λ db' e. insert-keeps _ db db' v refl e)))

  rename-keeps :
      (user : ℕ) (id : Option ℕ) (name : RawText) (db : Db)
      → IsValid db
      → IsValid (rename_account user id name db).1
  unfolding rename_account
  rename-keeps user id name db v = before-keeps _ db _ v (λ a _. before-keeps _ db _ v (λ n _.
      rw (duplicate_name-tables _)
        (statement-keeps _ _ db v (λ db' e. name-keeps a.id user n db db' v e))))

  archive-keeps :
      (user : ℕ) (id : Option ℕ) (db : Db) → IsValid db → IsValid (archive_account user id db).1
  unfolding archive_account
  archive-keeps user id db v = before-keeps _ db _ v (λ a _.
      if-keeps a.is_archived db _ _ v
        (statement-keeps _ _ db v (λ db' e. flag-keeps a.id db db' v e)))

  remove-keeps :
      (user : ℕ) (id : Option ℕ) (db : Db) → IsValid db → IsValid (delete_account user id db).1
  unfolding delete_account
  remove-keeps user id db v = before-keeps _ db _ v (λ a _.
      rw (has_transactions-tables _)
        (statement-keeps _ _ db v (λ db' e. row-keeps a.id db db' v e)))

  recompute-keeps :
      (user : ℕ) (id : Option ℕ) (db : Db) → IsValid db → IsValid (recompute_balance user id db).1
  unfolding recompute_balance
  recompute-keeps user id db v =
      any-keeps (recompute_balance user id db) db v
        (λ b db' e.
          unchanged-keeps user id db b db' v (recompute-IsRecomputed user id db v.account_keys e))
        (λ x db' e. atomic-err _ _ e)

module _ ⦃p : Python⦄ (categorizer : Categorizer) where
  register-keeps :
      (env : Env) (user : ℕ) (id : Option ℕ) (amount : Amount) (kind : Raw TransactionType)
      (day : ℕ) (description : Option Text) (category : Option RawText) (db : Db)
      → IsValid db
      → IsValid
          (register_transaction categorizer env user id amount kind day description category db).1
  unfolding register_transaction
  register-keeps env user id amount kind day description category db v =
      any-keeps
        (register_transaction categorizer env user id amount kind day description category db) db v
        (λ t db' e. register-IsValid env user db t db' v (
          (register-IsRegistered categorizer env user id amount kind day description category db
            v.account_keys e).0))
        (λ x db' e. atomic-err _ _ e)

module _ ⦃p : Python⦄ where
  recategorize-keeps :
      (env : Env) (user : ℕ) (id : Option ℕ) (name : Option Text) (db : Db)
      → IsValid db
      → IsValid (recategorize env user id name db).1
  unfolding recategorize
  recategorize-keeps env user id name db v =
      any-keeps (recategorize env user id name db) db v
        (λ t db' e.
          let (n, _, _, r) =
            recategorize-IsRecategorized env user id name db v.transaction_keys e in
          recategorize-IsValid env user n db t db' v r)
        (λ x db' e. atomic-err _ _ e)

  delete-keeps :
      (env : Env) (user : ℕ) (id : Option ℕ) (db : Db)
      → IsValid db
      → IsValid (delete_transaction env user id db).1
  unfolding delete_transaction
  delete-keeps env user id db v =
      any-keeps (delete_transaction env user id db) db v
        (λ _ db' e.
          let (t, _, r) = delete-IsDeleted env user id db v.account_keys v.transaction_keys e in
          delete-IsValid env user db t db' v r)
        (λ x db' e. atomic-err _ _ e)

module _ ⦃p : Python⦄ (categorizer : Categorizer) where
  -- Every call, whether it returns or raises, keeps the invariant of the tables: unique keys, every
  -- balance its opening balance plus the signed rows of the account, none negative unless the type
  -- of the account allows it, and rows with an account, a positive amount and a source exactly when
  -- they have a category.
  pub run-IsValid : (c : Call) (db : Db) → IsValid db → IsValid (run categorizer c db)
  unfolding run
  run-IsValid (create env user name kind initial currency) db v =
      create-keeps env user name kind initial currency db v
  run-IsValid (rename user id name) db v = rename-keeps user id name db v
  run-IsValid (archive user id) db v = archive-keeps user id db v
  run-IsValid (remove user id) db v = remove-keeps user id db v
  run-IsValid (recompute user id) db v = recompute-keeps user id db v
  run-IsValid (register env user id amount kind day description category) db v =
      register-keeps categorizer env user id amount kind day description category db v
  run-IsValid (recategorise env user id name) db v = recategorize-keeps env user id name db v
  run-IsValid (delete env user id) db v = delete-keeps env user id db v

  from-IsValid : (calls : List Call) (db : Db) → IsValid db → IsValid (run_all categorizer calls db)
  unfolding run_all
  from-IsValid [] db v = v
  from-IsValid (c ∷ calls) db v = from-IsValid calls (run categorizer c db) (run-IsValid c db v)

  -- Whatever calls are made on a new database, by any users and whether they return or raise, the
  -- keys of the tables are unique, every balance is its opening balance plus the signed rows of
  -- the account, no balance is negative unless the type of the account allows it, and every row
  -- has an account, a positive amount and a source exactly when it has a category.
  pub run_all-IsValid :
      (categories : List Category) (calls : List Call)
      → IsValid (run_all categorizer calls (empty categories))
  run_all-IsValid categories calls =
      from-IsValid calls (empty categories)
        (record { account_keys = tt; transaction_keys = tt; settled = λ k a e. cc; sound = tt })
