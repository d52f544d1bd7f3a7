-- ===== src/Finance/Invariant/Calls.antt =====
-- The calls of `TransactionService` keep the invariant.
use finty.Base.{ℕ, ◌≡◌, refl, ◌∙◌, ◌≢◌, [], ◌∷◌, ◌++◌, ==_refl, All-append, arith}
use finty.Base.Int.{pos, ◌+ℤ◌, +ℤ_zero, +ℤ_assoc}
use finty.Base.Table.{append-IsKeyed, update-IsKeyed}
use finty.Shared.Python.{Python}
use finty.Finance.Logic.Balance.{signed}
use finty.Finance.Store.{Transaction, Db, account_row, transaction_row}
use finty.Finance.Translate.{Env}
use finty.Finance.Transactions.Register.{IsRegistered}
use finty.Finance.Invariant.{total, contribution, IsSound, IsValid}
use finty.Finance.Invariant.Total.{total-append}
use finty.Finance.Invariant.Moved.{with_balance, with_balance-IsSound, moved-IsSettled}

pub contribution_own : (t : Transaction) → contribution t.account_id t ≡ signed t.type t.amount
unfolding contribution
contribution_own t = rw (==_refl t.account_id)

pub contribution_other : (k : ℕ) (t : Transaction) → k ≢ t.account_id → contribution k t ≡ pos 0
unfolding contribution
contribution_other k t ne = ground arith

pub register-IsValid :
    ⦃p : Python⦄ (env : Env) (user : ℕ) (db : Db) (t : Transaction) (db' : Db)
    → IsValid db
    → IsRegistered env user db t db'
    → IsValid db'
register-IsValid env user db t db' v r =
    let a = r.account in
    let settled = v.settled a.id a r.found in
    let own : total a.id (db.transactions ++ (t ∷ []))
        ≡ total a.id db.transactions +ℤ signed t.type t.amount =
      rw (total-append a.id db.transactions t) (rw (← r.linked, contribution_own t) refl) in
    let exact : r.balance ≡ a.opening_balance +ℤ total a.id (db.transactions ++ (t ∷ [])) =
      r.moved
      ∙ rw settled.consistent (
          rw own
            (+ℤ_assoc a.opening_balance (total a.id db.transactions) (signed t.type t.amount))) in
    let new : IsSound db.accounts t = record {
      linked = rw (r.linked, r.found) refl;
      positive = r.positive;
      categorized = r.categorized;
    } in
    rw r.tables (record {
      account_keys =
          update-IsKeyed a.id (with_balance r.balance) db.accounts (λ x. refl) v.account_keys;
      transaction_keys = append-IsKeyed db.transactions t v.transaction_keys r.fresh;
      settled =
          moved-IsSettled db a r.balance (db.transactions ++ (t ∷ [])) v r.found exact r.allowed
            (λ k ne.
              total-append k db.transactions t
              ∙ rw (contribution_other k t (λ q. ne (q ∙ r.linked)))
                  (+ℤ_zero (total k db.transactions)));
      sound =
          with_balance-IsSound a.id r.balance db.accounts (db.transactions ++ (t ∷ []))
            (All-append (IsSound db.accounts) db.transactions (t ∷ []) v.sound (new, tt));
    })
