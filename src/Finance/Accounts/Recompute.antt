-- ===== src/Finance/Accounts/Recompute.antt =====
-- What a successful `recompute_balance` did to the tables, and what `audit_balances` reports.
use finty.Base.{ℕ, ◌≡◌, ◌∙◌, ap, Option, some}
use finty.Base.Int.{ℤ, ◌+ℤ◌}
use finty.Base.Table.{lookup, update, IsKeyed}
use finty.Shared.Errors.{ok}
use finty.Shared.Python.{Python}
use finty.Finance.Store.{Account, Db, account_row, transaction_row}
use finty.Finance.Store.Effects.{set_balance-ok}
use finty.Finance.Session.{bind-ok, lift-ok, gets-ok, exec-ok, pure-ok, atomic-ok}
use finty.Finance.Accounts.{earlier, recompute_balance}
use finty.Finance.Accounts.Fetch.{fetch-ok}
use finty.Finance.Accounts.Calculate.{row_sum-order_by, row_sum-keep, calculate-ok}
use finty.Finance.Invariant.{total}

-- The user's account has the balance that its opening balance and its rows make.
pub record IsRecomputed (user : ℕ) (id : Option ℕ) (db : Db) (b : Account) (db' : Db) : Type 0 where
  pub account : Account
  pub found : lookup account.id db.accounts ≡ some account
  pub named : id ≡ some account.id
  pub owner : account.user_id ≡ user
  pub balance : ℤ
  pub exact : balance ≡ account.opening_balance +ℤ total account.id db.transactions
  pub result : b ≡ record account { balance = balance }
  pub tables :
      db'
      ≡ record db { accounts = update account.id (λ a. record a { balance = balance }) db.accounts }

assemble :
    (user : ℕ) (id : Option ℕ) (db db₁ db₂ : Db) (a b : Account) (n : ℤ) (db' : Db)
    → db₁ ≡ db
    → a.user_id ≡ user
    → id ≡ some a.id
    → lookup a.id db.accounts ≡ some a
    → n ≡ a.opening_balance +ℤ total a.id db₁.transactions
    → b ≡ record a { balance = n }
    → db₂ ≡ record db₁ { accounts = update a.id (λ x. record x { balance = n }) db₁.accounts }
    → db' ≡ db₂
    → IsRecomputed user id db b db'
assemble user id db db₁ db₂ a b n db' same owner named found exact made stored last = record {
  account = a;
  found = found;
  named = named;
  owner = owner;
  balance = n;
  exact = rw same at exact;
  result = made;
  tables = cc;
}

module _ ⦃p : Python⦄ where
  -- For keyed accounts, a recomputation that returns set the balance of the account of the user to
  -- its opening balance plus the signed rows of the account, whatever it was before, and changed
  -- nothing else.
  pub recompute-IsRecomputed :
      (user : ℕ) (id : Option ℕ) (db : Db) {b : Account} {db' : Db}
      → IsKeyed db.accounts
      → recompute_balance user id db ≡ (ok b, db')
      → IsRecomputed user id db b db'
  unfolding recompute_balance
  recompute-IsRecomputed user id db keyed e =
      let (a, db₁, e₁, e₂) = bind-ok _ _ _ (atomic-ok _ _ e) in
      let (same, owner, named, found) = fetch-ok user id db keyed e₁ in
      let (m, e₃, e₄) = lift-ok _ _ _ (gets-ok _ _ _ e₂) in
      let (db₂, e₅, e₆) = exec-ok _ _ _ e₄ in
      let (made, last) = pure-ok _ _ e₆ in
      let whole =
        calculate-ok a _ e₃
        ∙ ap (λ z. a.opening_balance +ℤ z)
            (row_sum-order_by earlier _ ∙ row_sum-keep a.id db₁.transactions) in
      assemble user id db db₁ db₂ a _ m.amount _ same owner named found whole made
        (set_balance-ok a.id m.amount db₁ e₅).0 last
