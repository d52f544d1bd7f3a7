-- ===== src/Finance/Commands/Atomic.antt =====
-- A call that raises leaves no trace.
use finty.Base.{ℕ, ◌≡◌, refl, Bool, true, false, Option, none, some, if◌then◌else◌, arith}
use finty.Shared.Errors.{Error, Result, ok, err}
use finty.Shared.Python.{Python}
use finty.Shared.Currency.{RawText}
use finty.Finance.ValueObjects.{AccountType, Raw}
use finty.Finance.Builders.{Categorizer}
use finty.Finance.Store.{Db, is_set}
use finty.Finance.Session.{Session, atomic}
use finty.Finance.Translate.{Amount, Env}
use finty.Finance.Accounts.{
  before, duplicate_name, has_transactions, create_account, rename_account, archive_account,
  delete_account, recompute_balance,
}
use finty.Finance.Transactions.{register_transaction, recategorize, delete_transaction}
use finty.Finance.Commands.{
  Call, create, rename, archive, remove, recompute, register, recategorise, delete,
}

-- What a call raised, if it did.
abbrev pub raised : {A : Type 0} → Result A × Db → Option Error
raised (ok a, db) = none
raised (err e, db) = some e

module _ ⦃p : Python⦄ (categorizer : Categorizer) where
  -- What a call raises, and the tables afterwards.
  unfoldable pub perform : Call → Db → Option Error × Db
  perform (create env user name kind initial currency) db =
      let r = create_account env user name kind initial currency db in (raised r, r.1)
  perform (rename user id name) db = let r = rename_account user id name db in (raised r, r.1)
  perform (archive user id) db = let r = archive_account user id db in (raised r, r.1)
  perform (remove user id) db = let r = delete_account user id db in (raised r, r.1)
  perform (recompute user id) db = let r = recompute_balance user id db in (raised r, r.1)
  perform (register env user id amount kind day description category) db =
      let r =
        register_transaction categorizer env user id amount kind day description category db in
      (raised r, r.1)
  perform (recategorise env user id name) db =
      let r = recategorize env user id name db in (raised r, r.1)
  perform (delete env user id) db = let r = delete_transaction env user id db in (raised r, r.1)

-- What such a call is.
abbrev IsClean : {A : Type 0} → Db → Result A × Db → Type 0
IsClean db r = is_set (raised r) ≡ true → r.1 ≡ db

module _ {A : Type 0} where
  atomic-IsClean : (body : Session A) (db : Db) → IsClean db (atomic body db)
  unfolding atomic
  atomic-IsClean body db h = ground arith

  before-IsClean :
      {B : Type 0} (x : Result B) (db : Db) (k : B → Result A × Db)
      → ((b : B) → IsClean db (k b))
      → IsClean db (before x db k)
  unfolding before
  before-IsClean (ok b) db k h = h b
  before-IsClean (err x) db k h = λ _. refl

  if-IsClean :
      (b : Bool) (db : Db) (x y : Result A × Db)
      → IsClean db x
      → IsClean db y
      → IsClean db (if b then x else y)
  if-IsClean true db x y h k = h
  if-IsClean false db x y h k = k

  duplicate_name-IsClean :
      (db : Db) (r : Result A × Db) → IsClean db r → IsClean db (duplicate_name r)
  unfolding duplicate_name
  duplicate_name-IsClean db r h is = ground (arith, h)

  has_transactions-IsClean :
      (db : Db) (r : Result A × Db) → IsClean db r → IsClean db (has_transactions r)
  unfolding has_transactions
  has_transactions-IsClean db r h is = ground (arith, h)

  pub clean :
      (db : Db) (r : Result A × Db) {e : Error} → IsClean db r → raised r ≡ some e → r.1 ≡ db
  clean db (ok a, db') h is = cc
  clean db (err x, db') h is = h refl

module _ ⦃p : Python⦄ where
  create-IsClean :
      (env : Env) (user : ℕ) (name : RawText) (kind : Raw AccountType) (initial : Option Amount)
      (currency : Option RawText) (db : Db)
      → IsClean db (create_account env user name kind initial currency db)
  unfolding create_account
  create-IsClean env user name kind initial currency db =
      before-IsClean _ db _ (λ d. duplicate_name-IsClean db _ (atomic-IsClean _ db))

  rename-IsClean :
      (user : ℕ) (id : Option ℕ) (name : RawText) (db : Db)
      → IsClean db (rename_account user id name db)
  unfolding rename_account
  rename-IsClean user id name db =
      before-IsClean _ db _
        (λ a. before-IsClean _ db _ (λ n. duplicate_name-IsClean db _ (atomic-IsClean _ db)))

  archive-IsClean : (user : ℕ) (id : Option ℕ) (db : Db) → IsClean db (archive_account user id db)
  unfolding archive_account
  archive-IsClean user id db =
      before-IsClean _ db _ (λ a. if-IsClean a.is_archived db _ _ (λ _. refl) (atomic-IsClean _ db))

  remove-IsClean : (user : ℕ) (id : Option ℕ) (db : Db) → IsClean db (delete_account user id db)
  unfolding delete_account
  remove-IsClean user id db =
      before-IsClean _ db _ (λ a. has_transactions-IsClean db _ (atomic-IsClean _ db))

module _ ⦃p : Python⦄ (categorizer : Categorizer) where
  -- A call that raises leaves the tables as they were: no row, no balance and no event that it
  -- wrote before it raised stays.
  pub perform_atomic :
      (c : Call) (db : Db) (e : Error)
      → (perform categorizer c db).0 ≡ some e
      → (perform categorizer c db).1 ≡ db
  unfolding perform recompute_balance register_transaction recategorize delete_transaction
  perform_atomic (create env user name kind initial currency) db e h =
      clean db _ (create-IsClean env user name kind initial currency db) h
  perform_atomic (rename user id name) db e h = clean db _ (rename-IsClean user id name db) h
  perform_atomic (archive user id) db e h = clean db _ (archive-IsClean user id db) h
  perform_atomic (remove user id) db e h = clean db _ (remove-IsClean user id db) h
  perform_atomic (recompute user id) db e h = clean db _ (atomic-IsClean _ db) h
  perform_atomic (register env user id amount kind day description category) db e h =
      clean db _ (atomic-IsClean _ db) h
  perform_atomic (recategorise env user id name) db e h = clean db _ (atomic-IsClean _ db) h
  perform_atomic (delete env user id) db e h = clean db _ (atomic-IsClean _ db) h
