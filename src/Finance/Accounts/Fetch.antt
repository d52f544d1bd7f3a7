-- ===== src/Finance/Accounts/Fetch.antt =====
-- The row that `_fetch_account` returns is the user's own.
use finty.Base.{ℕ, ◌≡◌, Option, none, some, List, [], ◌∷◌, find, arith}
use finty.Base.Table.{lookup, IsKeyed}
use finty.Shared.Errors.{ok}
use finty.Finance.Store.{Account, Db, account_row}
use finty.Finance.Session.{lift}
use finty.Finance.Accounts.{owned_by, fetch_account}

pub find-owned_by :
    (user id : ℕ) (m : List Account) (a : Account)
    → IsKeyed m
    → find (owned_by user id) m ≡ some a
    → (a.user_id ≡ user) × (a.id ≡ id) × (lookup id m ≡ some a)
find-owned_by user id [] a h e = cc
find-owned_by user id (b ∷ m) a (new, h) e = ground (arith, find-owned_by user id m a h)

pub fetch-ok :
    (user : ℕ) (id : Option ℕ) (db : Db) {a : Account} {db₁ : Db}
    → IsKeyed db.accounts
    → fetch_account user id db ≡ (ok a, db₁)
    → (db₁ ≡ db) × (a.user_id ≡ user) × (id ≡ some a.id) × (lookup a.id db.accounts ≡ some a)
unfolding fetch_account lift
fetch-ok user none db h e = cc
fetch-ok user (some id) db {a = a} h e = ground (arith, find-owned_by user id db.accounts a h)
