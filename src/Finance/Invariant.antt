-- ===== src/Finance/Invariant.antt =====
-- What holds of the tables whatever calls were made: keys are unique, every transaction has its
-- account, every balance is its opening balance plus the signed transactions (INV-07), only a credit
-- account is overdrawn (INV-14), amounts are positive (INV-04), and a transaction has a category
-- exactly when it has a source (INV-08).
pub mod Total
pub mod Moved
pub mod Calls
pub mod Deleted
pub mod Recategorized
pub mod Kept
pub mod Accounts
use finty.Base.{
  ℕ, Bool, true, false, ◌≡◌, Option, none, some, List, [], ◌∷◌, ◌==◌, All, if◌then◌else◌,
}
use finty.Base.Int.{ℤ, pos, ◌+ℤ◌, ◌<ℤ◌, ◌≤ℤ◌, ltb_ℤ}
use finty.Base.Table.{lookup, IsKeyed}
use finty.Finance.ValueObjects.{allows_negative_balance}
use finty.Finance.Logic.Balance.{signed}
use finty.Finance.Store.{Account, Transaction, Db, account_row, transaction_row}

-- What a row adds to the balance of the account `k`.
unfoldable pub contribution : ℕ → Transaction → ℤ
contribution k t = if t.account_id == k then signed t.type t.amount else pos 0

-- The signed sum of the rows of an account.
abbrev pub total : ℕ → List Transaction → ℤ
total k [] = pos 0
total k (t ∷ m) = contribution k t +ℤ total k m

abbrev pub exists : {A : Type 0} → Option A → Bool
exists none = false
exists (some _) = true

-- The balance is consistent, and is not negative unless the type of the account allows it.
pub record IsSettled (transactions : List Transaction) (a : Account) : Type 0 where
  pub consistent : a.balance ≡ a.opening_balance +ℤ total a.id transactions
  pub allowed : ltb_ℤ a.balance (pos 0) ≡ true → allows_negative_balance a.type ≡ true

pub record IsSound (accounts : List Account) (t : Transaction) : Type 0 where
  pub linked : exists (lookup t.account_id accounts) ≡ true
  pub positive : pos 0 <ℤ t.amount
  pub categorized : exists t.category_id ≡ exists t.categorization_source

pub record IsValid (db : Db) : Type 0 where
  pub account_keys : IsKeyed db.accounts
  pub transaction_keys : IsKeyed db.transactions
  pub settled : (k : ℕ) (a : Account) → lookup k db.accounts ≡ some a → IsSettled db.transactions a
  pub sound : All (IsSound db.accounts) db.transactions
