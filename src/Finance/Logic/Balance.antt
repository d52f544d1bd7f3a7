-- ===== src/Finance/Logic/Balance.antt =====
-- What `BalanceCalculator` computes: the opening balance plus the signed movements.
use finty.Base.{ℕ, ⊤, ◌+◌, ◌≡◌, ◌∙◌, List, [], ◌∷◌}
use finty.Base.Int.{ℤ, pos, neg, ◌+ℤ◌, magnitude, int_laws, -ℤ-eq-neg, +ℤ_assoc, -ℤ_cancel}
use finty.Base.Text.{Text}
use finty.Shared.Errors.{ok, >>=-eq-ok, ok-injective}
use finty.Shared.Python.{Python}
use finty.Shared.Money.{Money}
use finty.Shared.Money.Laws.{add-ok, subtract-ok}
use finty.Finance.ValueObjects.{TransactionType, income, expense}
use finty.Finance.Logic.{apply, revert, recompute}

-- The amount with the sign of its type.
abbrev pub signed : TransactionType → ℤ → ℤ
signed income n = n
signed expense n = neg n

-- The sum of the signed movements.
abbrev pub signed_sum : List (Money × TransactionType) → ℤ
signed_sum [] = pos 0
signed_sum ((m, t) ∷ ms) = signed t m.amount +ℤ signed_sum ms

module _ ⦃p : Python⦄ where
  pub apply-ok :
      (b a : Money) (t : TransactionType) {m : Money}
      → apply b a t ≡ ok m
      → (m.amount ≡ b.amount +ℤ signed t a.amount) × (b.currency ≡ a.currency)
  unfolding apply
  apply-ok b a income e = add-ok b a e
  apply-ok b a expense e = let (h, k) = subtract-ok b a e in (h ∙ -ℤ-eq-neg b.amount a.amount, k)

  pub revert-ok :
      (b a : Money) (t : TransactionType) {m : Money}
      → revert b a t ≡ ok m
      → m.amount +ℤ signed t a.amount ≡ b.amount
  unfolding revert
  revert-ok b a income e = rw (subtract-ok b a e).0 (-ℤ_cancel b.amount a.amount)
  revert-ok b a expense e = rw (add-ok b a e).0 (omega int_laws)

  -- Whatever `recompute` returns is the opening balance plus the signed movements.
  pub recompute-ok :
      (b : Money) (ms : List (Money × TransactionType)) {m : Money}
      → recompute b ms ≡ ok m
      → m.amount ≡ b.amount +ℤ signed_sum ms
  unfolding recompute
  recompute-ok b [] e = rw (← ok-injective e) (omega int_laws)
  recompute-ok b ((a, t) ∷ ms) e =
      let (next, e₁, e₂) = >>=-eq-ok _ _ e in
      let h = (apply-ok b a t e₁).0 in
      let k = recompute-ok next ms e₂ in
      k ∙ rw h (+ℤ_assoc b.amount (signed t a.amount) (signed_sum ms))

-- The sum of the magnitudes, which bounds every partial balance.
abbrev pub weight : List (Money × TransactionType) → ℕ
weight [] = 0
weight ((m, _) ∷ ms) = magnitude m.amount + weight ms

abbrev pub InCurrency : Text → List (Money × TransactionType) → Type 0
InCurrency c [] = ⊤
InCurrency c ((m, _) ∷ ms) = (c ≡ m.currency) × InCurrency c ms
