-- ===== src/Shared/Money/Laws.antt =====
-- The arithmetic of `Money` on well-formed amounts: no operation raises anything but the mismatch of
-- currencies, as long as the result has 28 digits.
use finty.Base.{◌<◌, ◌≡◌, ◌∙◌, sym, refl, ◌≢◌, arith}
use finty.Base.Int.{ℤ, ◌+ℤ◌, ◌-ℤ◌, magnitude, +ℤ_cancel}
use finty.Base.Text.{Text, text_eq_iff}
use finty.Shared.Errors.{
  domain, currency_mismatch, ok, err, ◌>>=◌, ◌>>◌, >>=-eq-ok, >>-eq-ok, ok-injective,
}
use finty.Shared.Python.{Python}
use finty.Shared.Decimal.{precision_bound, coerce_amount}
use finty.Shared.Decimal.Rounding.{quantize_exact, quantize-ok}
use finty.Shared.Currency.{IsCode, text, validate_currency_code, validate-code}
use finty.Shared.Money.{Money, cents, money, add, subtract, less, require_same_currency}

-- A value that `Money(...)` can have returned.
pub record IsMoney (m : Money) : Type 0 where
  pub fits : magnitude m.amount < precision_bound
  pub code : IsCode m.currency

-- The amount of cents `n` in the currency `c`.
abbrev pub money_of : ℤ → Text → Money
money_of n c = record { amount = n; currency = c }

module _ ⦃p : Python⦄ where
  pub money-cents :
      (n : ℤ) (c : Text)
      → magnitude n < precision_bound
      → IsCode c
      → money (cents n) (text c) ≡ ok (money_of n c)
  unfolding money coerce_amount ◌>>=◌
  money-cents n c h k = rw (quantize_exact n h, validate-code c k) refl

  pub require-same : (a b : Money) → a.currency ≡ b.currency → require_same_currency a b ≡ ok tt
  unfolding require_same_currency
  require-same a b e = rw ((text_eq_iff a.currency b.currency).1 e) refl

  pub require-differ :
      (a b : Money)
      → a.currency ≢ b.currency
      → require_same_currency a b ≡ err (domain currency_mismatch)
  unfolding require_same_currency
  require-differ a b ne = ground (arith, text_eq_iff a.currency b.currency)

  pub require-ok : (a b : Money) → require_same_currency a b ≡ ok tt → a.currency ≡ b.currency
  unfolding require_same_currency
  require-ok a b e = ground (arith, text_eq_iff a.currency b.currency)

  pub add_lem :
      (a b : Money)
      → IsCode a.currency
      → a.currency ≡ b.currency
      → magnitude (a.amount +ℤ b.amount) < precision_bound
      → add a b ≡ ok (money_of (a.amount +ℤ b.amount) a.currency)
  unfolding add ◌>>◌
  add_lem a b k e h = rw (require-same a b e) (money-cents (a.amount +ℤ b.amount) a.currency h k)

  pub subtract_lem :
      (a b : Money)
      → IsCode a.currency
      → a.currency ≡ b.currency
      → magnitude (a.amount -ℤ b.amount) < precision_bound
      → subtract a b ≡ ok (money_of (a.amount -ℤ b.amount) a.currency)
  unfolding subtract ◌>>◌
  subtract_lem a b k e h =
      rw (require-same a b e) (money-cents (a.amount -ℤ b.amount) a.currency h k)

  -- For two amounts of different currencies, adding, subtracting and comparing raise the mismatch
  -- of currencies.
  pub mixed_currencies :
      (a b : Money)
      → a.currency ≢ b.currency
      → (add a b ≡ err (domain currency_mismatch))
        × (subtract a b ≡ err (domain currency_mismatch))
        × (less a b ≡ err (domain currency_mismatch))
  unfolding add subtract less ◌>>◌
  mixed_currencies a b ne = (
    rw (require-differ a b ne) refl,
    rw (require-differ a b ne) refl,
    rw (require-differ a b ne) refl,
  )

  -- What `Money(...)` returns for a decimal with two places.
  pub money-ok :
      (n : ℤ) (c : Text) {m : Money}
      → money (cents n) (text c) ≡ ok m
      → (m.amount ≡ n)
        × (magnitude n < precision_bound)
        × (validate_currency_code (text c) ≡ ok m.currency)
  unfolding money coerce_amount
  money-ok n c e =
      let (q, eq, e₁) = >>=-eq-ok _ _ e in
      let (d, valid, e₂) = >>=-eq-ok _ _ e₁ in grind (arith, quantize-ok n eq)

  pub add-ok :
      (a b : Money) {m : Money}
      → add a b ≡ ok m
      → (m.amount ≡ a.amount +ℤ b.amount) × (a.currency ≡ b.currency)
  unfolding add
  add-ok a b e =
      let (same, e₁) = >>-eq-ok _ _ e in
      ((money-ok (a.amount +ℤ b.amount) a.currency e₁).0, require-ok a b same)

  pub subtract-ok :
      (a b : Money) {m : Money}
      → subtract a b ≡ ok m
      → (m.amount ≡ a.amount -ℤ b.amount) × (a.currency ≡ b.currency)
  unfolding subtract
  subtract-ok a b e =
      let (same, e₁) = >>-eq-ok _ _ e in
      ((money-ok (a.amount -ℤ b.amount) a.currency e₁).0, require-ok a b same)

  -- For an amount that the constructor can have returned, where adding another one returns,
  -- subtracting that one from the sum returns the first amount.
  pub subtract-add : (a b : Money) {m : Money} → IsMoney a → add a b ≡ ok m → subtract m b ≡ ok a
  unfolding add
  subtract-add a b {m = m} h e =
      let (same, e₁) = >>-eq-ok _ _ e in
      let (amount, fits, code) = money-ok (a.amount +ℤ b.amount) a.currency e₁ in
      let cur : m.currency ≡ a.currency =
        ok-injective (sym code ∙ validate-code a.currency h.code) in
      let back : m.amount -ℤ b.amount ≡ a.amount = rw amount (+ℤ_cancel a.amount b.amount) in
      subtract_lem m b (rw cur h.code) (cur ∙ require-ok a b same) (rw back h.fits)
      ∙ rw (back, cur) refl
