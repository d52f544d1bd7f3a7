-- ===== src/Finance/Invariant/Recategorized.antt =====
-- `recategorize` keeps the invariant.
use finty.Base.{ℕ, ◌≡◌, refl, sym, ◌∙◌, ap, ap₂, [], ◌∷◌, List, ◌==◌, All, inl, inr, Bool-cases}
use finty.Base.Int.{◌+ℤ◌}
use finty.Base.Text.{Text}
use finty.Base.Table.{update, update-IsKeyed}
use finty.Shared.Python.{Python}
use finty.Finance.Store.{Account, Transaction, Db, account_row, transaction_row}
use finty.Finance.Translate.{Env}
use finty.Finance.Transactions.Recategorize.{recategorized, IsRecategorized}
use finty.Finance.Invariant.{total, contribution, IsSound, IsValid}

contribution-recategorized :
    (k c : ℕ) (t : Transaction) → contribution k (recategorized c t) ≡ contribution k t
unfolding contribution
contribution-recategorized k c t = refl

-- A category changes no balance.
pub total-recategorized :
    (k id c : ℕ) (m : List Transaction) → total k (update id (recategorized c) m) ≡ total k m
total-recategorized k id c [] = refl
total-recategorized k id c (t ∷ m) = elim (Bool-cases (t.id == id)) [
  | inl h ↦
      rw h (ap₂ (λ x y. x +ℤ y) (contribution-recategorized k c t) (total-recategorized k id c m))
  | inr h ↦ rw h (ap (λ y. contribution k t +ℤ y) (total-recategorized k id c m))
]

recategorized-IsSound :
    (id c : ℕ) (accounts : List Account) (m : List Transaction)
    → All (IsSound accounts) m
    → All (IsSound accounts) (update id (recategorized c) m)
recategorized-IsSound id c accounts [] h = tt
recategorized-IsSound id c accounts (t ∷ m) (s, h) =
    let rest = recategorized-IsSound id c accounts m h in
    elim (Bool-cases (t.id == id)) [
      | inl e ↦ rw e (record { linked = s.linked; positive = s.positive; categorized = refl }, rest)
      | inr e ↦ rw e (s, rest)
    ]

pub recategorize-IsValid :
    ⦃p : Python⦄ (env : Env) (user : ℕ) (name : Text) (db : Db) (t : Transaction) (db' : Db)
    → IsValid db
    → IsRecategorized env user name db t db'
    → IsValid db'
recategorize-IsValid env user name db t db' v r =
    let id = r.old.id in
    let c = r.category.id in
    rw r.tables (record {
      account_keys = v.account_keys;
      transaction_keys =
          update-IsKeyed id (recategorized c) db.transactions (λ x. refl) v.transaction_keys;
      settled = λ k a e. record {
        consistent =
            (v.settled k a e).consistent
            ∙ ap (λ y. a.opening_balance +ℤ y)
                (sym (total-recategorized a.id id c db.transactions));
        allowed = (v.settled k a e).allowed;
      };
      sound = recategorized-IsSound id c db.accounts db.transactions v.sound;
    })
