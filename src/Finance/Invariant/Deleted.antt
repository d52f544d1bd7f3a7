-- ===== src/Finance/Invariant/Deleted.antt =====
-- `delete_transaction` keeps the invariant.
use finty.Base.{ℕ, ◌≡◌, refl, sym, ◌∙◌, ap, [], ◌∷◌, List, All, arith}
use finty.Base.Int.{ℤ, ◌+ℤ◌, +ℤ_zero, +ℤ_cancel, int_laws}
use finty.Base.Table.{erase, update-IsKeyed, erase-IsKeyed}
use finty.Shared.Python.{Python}
use finty.Finance.Logic.Balance.{signed}
use finty.Finance.Store.{Transaction, Db, account_row, transaction_row}
use finty.Finance.Translate.{Env}
use finty.Finance.Transactions.Delete.{IsDeleted}
use finty.Finance.Invariant.{total, contribution, IsSound, IsValid}
use finty.Finance.Invariant.Total.{total-erase}
use finty.Finance.Invariant.Moved.{with_balance, with_balance-IsSound, moved-IsSettled}
use finty.Finance.Invariant.Calls.{contribution_own, contribution_other}

pub All-erase :
    (P : Transaction → Type 0) (id : ℕ) (m : List Transaction) → All P m → All P (erase id m)
All-erase P id [] h = tt
All-erase P id (t ∷ m) (p, h) = ground (arith, All-erase P id m h)

-- x is the balance with the row, y the total without it.
settle : (n b o y z s : ℤ) → n +ℤ s ≡ b → b ≡ o +ℤ z → y +ℤ s ≡ z → n ≡ o +ℤ y
settle n b o y z s h₁ h₂ h₃ = sym (+ℤ_cancel n s) ∙ rw (h₁, h₂, ← h₃) (omega int_laws)

pub delete-IsValid :
    ⦃p : Python⦄ (env : Env) (user : ℕ) (db : Db) (t : Transaction) (db' : Db)
    → IsValid db
    → IsDeleted env user db t db'
    → IsValid db'
delete-IsValid env user db t db' v r =
    let a = r.account in
    let rows = erase t.id db.transactions in
    let settled = v.settled a.id a r.found in
    let gone = λ (k : ℕ). total-erase k t.id db.transactions t v.transaction_keys r.present in
    let own : total a.id rows +ℤ signed t.type t.amount ≡ total a.id db.transactions =
      ap (λ z. total a.id rows +ℤ z)
        (sym (contribution_own t) ∙ ap (λ k. contribution k t) r.linked)
      ∙ gone a.id in
    rw r.tables (record {
      account_keys =
          update-IsKeyed a.id (with_balance r.balance) db.accounts (λ x. refl) v.account_keys;
      transaction_keys = erase-IsKeyed t.id db.transactions v.transaction_keys;
      settled =
          moved-IsSettled db a r.balance rows v r.found
            (settle r.balance a.balance a.opening_balance (total a.id rows)
              (total a.id db.transactions) (signed t.type t.amount) r.moved settled.consistent own)
            r.allowed
            (λ k ne.
              sym (+ℤ_zero (total k rows))
              ∙ ap (λ z. total k rows +ℤ z) (sym (contribution_other k t (λ q. ne (q ∙ r.linked))))
              ∙ gone k);
      sound =
          with_balance-IsSound a.id r.balance db.accounts rows
            (All-erase (IsSound db.accounts) t.id db.transactions v.sound);
    })
