-- ===== src/Finance/Invariant/Moved.antt =====
-- The invariant when one account's balance and rows change together.
use mathlib.Core.Option
use mathlib.Core.Option.{some-injective}
use finty.Base.{
  ℕ, ◌≡◌, refl, sym, ◌∙◌, ap, ◌≢◌, true, some, List, ◌==◌, ==_iff, inl, inr, Bool-cases, All,
  All-map, arith, if◌then◌else◌, Option-cases,
}
use finty.Base.Int.{ℤ, pos, ◌+ℤ◌, ltb_ℤ}
use finty.Base.Table.{lookup, update, lookup-update, key-lookup}
use finty.Finance.ValueObjects.{allows_negative_balance}
use finty.Finance.Store.{Account, Transaction, Db, account_row}
use finty.Finance.Invariant.{total, exists, IsSettled, IsSound, IsValid}

abbrev pub with_balance : ℤ → Account → Account
with_balance n a = record a { balance = n }

pub lookup-with_balance :
    (k id : ℕ) (n : ℤ) (m : List Account)
    → lookup k (update id (with_balance n) m)
      ≡ (if k == id then Option.map (with_balance n) (lookup k m) else lookup k m)
lookup-with_balance k id n m = lookup-update k id (with_balance n) m (λ a. refl)

exists-with_balance :
    (k id : ℕ) (n : ℤ) (m : List Account)
    → exists (lookup k (update id (with_balance n) m)) ≡ exists (lookup k m)
exists-with_balance k id n m = elim (Option-cases (lookup k m)) [
  | inl e ↦ ground (arith, lookup-with_balance k id n m)
  | inr (a, e) ↦ ground (arith, lookup-with_balance k id n m)
]

pub with_balance-IsSound :
    (id : ℕ) (n : ℤ) (m : List Account) (ts : List Transaction)
    → All (IsSound m) ts
    → All (IsSound (update id (with_balance n) m)) ts
with_balance-IsSound id n m ts h =
    All-map (IsSound m) _
      (λ t s. record {
        linked = exists-with_balance t.account_id id n m ∙ s.linked;
        positive = s.positive;
        categorized = s.categorized;
      })
      ts h

-- One balance moved with its rows, and the rows of the other accounts count as before.
pub moved-IsSettled :
    (db : Db) (a : Account) (n : ℤ) (rows : List Transaction)
    → IsValid db
    → lookup a.id db.accounts ≡ some a
    → n ≡ a.opening_balance +ℤ total a.id rows
    → (ltb_ℤ n (pos 0) ≡ true → allows_negative_balance a.type ≡ true)
    → ((k : ℕ) → k ≢ a.id → total k rows ≡ total k db.transactions)
    → (k : ℕ) (x : Account) → lookup k (update a.id (with_balance n) db.accounts) ≡ some x
    → IsSettled rows x
moved-IsSettled db a n rows v found exact allowed others k x e = elim (Bool-cases (k == a.id)) [
  | inl same ↦
      let here : k ≡ a.id = (==_iff k a.id).0 same in
      let new : lookup k (update a.id (with_balance n) db.accounts) ≡ some (with_balance n a) =
        rw (lookup-with_balance k a.id n db.accounts, same, here, found) refl in
      let is : with_balance n a ≡ x = some-injective _ _ (sym new ∙ e) in
      rw (← is) (record { consistent = exact; allowed = allowed })
  | inr other ↦
      let old : lookup k db.accounts ≡ some x =
        rw (lookup-with_balance k a.id n db.accounts, other) at e in
      let was = v.settled k x old in
      let ids : x.id ≡ k = key-lookup k db.accounts x old in
      record {
        consistent =
            was.consistent
            ∙ ap (λ z. x.opening_balance +ℤ z)
                (sym (others x.id (λ q. cc ((==_iff k a.id).1 (sym ids ∙ q)))));
        allowed = was.allowed;
      }
]
