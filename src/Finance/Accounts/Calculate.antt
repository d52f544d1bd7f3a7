-- ===== src/Finance/Accounts/Calculate.antt =====
-- What `_calculate`, the full recomputation of a balance, returns.
use finty.Base.{
  ℕ, ◌≡◌, refl, sym, ◌∙◌, ap, Bool, [], ◌∷◌, List, ◌==◌, inl, inr, Bool-cases, keep, order_by,
  insert_by,
}
use finty.Base.Int.{ℤ, pos, ◌+ℤ◌, zero_+ℤ, int_laws}
use finty.Base.Text.{Text}
use finty.Shared.Errors.{ok, >>=-eq-ok, ok-injective}
use finty.Shared.Python.{Python}
use finty.Shared.Money.{Money}
use finty.Shared.Money.Laws.{money-ok}
use finty.Finance.ValueObjects.{TransactionType}
use finty.Finance.Logic.Balance.{signed, signed_sum, recompute-ok}
use finty.Finance.Store.{Account, Transaction}
use finty.Finance.Accounts.{of_account, movements, calculate}
use finty.Finance.Invariant.{total, contribution}

-- The signed sum of all the rows of a list.
abbrev pub row_sum : List Transaction → ℤ
row_sum [] = pos 0
row_sum (t ∷ m) = signed t.type t.amount +ℤ row_sum m

swap : (a b c : ℤ) → a +ℤ (b +ℤ c) ≡ b +ℤ (a +ℤ c)
swap a b c = omega int_laws

row_sum-insert_by :
    (before : Transaction → Transaction → Bool) (t : Transaction) (m : List Transaction)
    → row_sum (insert_by before t m) ≡ signed t.type t.amount +ℤ row_sum m
row_sum-insert_by before t [] = refl
row_sum-insert_by before t (s ∷ m) = elim (Bool-cases (before s t)) [
  | inl h ↦
      rw (h, row_sum-insert_by before t m)
        (swap (signed s.type s.amount) (signed t.type t.amount) (row_sum m))
  | inr h ↦ rw h refl
]

-- The order of the rows does not matter.
pub row_sum-order_by :
    (before : Transaction → Transaction → Bool) (m : List Transaction)
    → row_sum (order_by before m) ≡ row_sum m
row_sum-order_by before [] = refl
row_sum-order_by before (t ∷ m) =
    row_sum-insert_by before t (order_by before m)
    ∙ ap (λ z. signed t.type t.amount +ℤ z) (row_sum-order_by before m)

pub row_sum-keep : (k : ℕ) (m : List Transaction) → row_sum (keep (of_account k) m) ≡ total k m
unfolding contribution
row_sum-keep k [] = refl
row_sum-keep k (t ∷ m) = elim (Bool-cases (t.account_id == k)) [
  | inl h ↦ rw h (ap (λ z. signed t.type t.amount +ℤ z) (row_sum-keep k m))
  | inr h ↦ rw h (row_sum-keep k m ∙ sym (zero_+ℤ (total k m)))
]

module _ ⦃p : Python⦄ where
  movements-ok :
      (c : Text) (rows : List Transaction) {ms : List (Money × TransactionType)}
      → movements c rows ≡ ok ms
      → signed_sum ms ≡ row_sum rows
  unfolding movements
  movements-ok c [] e = rw (← ok-injective e) refl
  movements-ok c (t ∷ rows) e =
      let (m, e₁, e₂) = >>=-eq-ok _ _ e in
      let (rest, e₃, e₄) = >>=-eq-ok _ _ e₂ in
      rw (← ok-injective e₄) (rw ((money-ok _ _ e₁).0, movements-ok c rows e₃) refl)

  -- Whatever the calculation returns is the opening balance plus the signed rows.
  pub calculate-ok :
      (a : Account) (rows : List Transaction) {m : Money}
      → calculate a rows ≡ ok m
      → m.amount ≡ a.opening_balance +ℤ row_sum rows
  unfolding calculate
  calculate-ok a rows e =
      let (ms, e₁, e₂) = >>=-eq-ok _ _ e in
      let (opening, e₃, e₄) = >>=-eq-ok _ _ e₂ in
      recompute-ok opening ms e₄ ∙ rw ((money-ok _ _ e₃).0, movements-ok a.currency rows e₁) refl
