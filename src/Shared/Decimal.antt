-- ===== src/Shared/Decimal.antt =====
-- `decimal.Decimal` of Python's standard library, as far as `Money` uses it, and the amounts that
-- `_coerce_amount` is given (services/finance-service/domain/shared/value_objects.py).
-- A cent amount is an integer; -0.00 and 0.00 are one amount, as they are for `==` and `<`.
pub mod Rounding
use finty.Base.{ℕ, suc, ◌+◌, ◌*◌, ◌/◌, ◌^◌, none, some, leb, if◌then◌else◌}
use finty.Base.Int.{ℤ, pos, negsuc, neg, magnitude}
use finty.Base.Text.{Text, strip}
use finty.Shared.Errors.{domain, validation_error, invalid_operation, Result, ok, err}
use finty.Shared.Python.{Decimal, finite, infinite, nan, Python}

-- A number of 1/d, to the nearest whole, a half away from zero: ROUND_HALF_UP on magnitudes.
unfoldable pub round_half_up : ℕ → ℕ → ℕ
round_half_up n d = (2 * n + d) / (2 * d)

-- The context's precision: a coefficient has 28 digits at most.
abbrev pub precision_bound : ℕ
precision_bound = 10 ^ 28

-- `amount.quantize(CENTS, rounding=ROUND_HALF_UP)` in cents, before the precision check. The
-- exponent of the amount is `e`.
unfoldable pub with_sign : ℤ → ℕ → ℤ
with_sign (pos _) m = pos m
with_sign (negsuc _) m = neg (pos m)

unfoldable pub to_cents : ℤ → ℤ → ℤ
unfolding with_sign
to_cents c (pos e) = with_sign c (magnitude c * 10 ^ (e + 2))
to_cents c (negsuc ℕ.zero) = with_sign c (magnitude c * 10)
to_cents c (negsuc (suc k)) = with_sign c (round_half_up (magnitude c) (10 ^ k))

-- `quantize` raises `InvalidOperation` where the result has more than 28 digits.
unfoldable pub quantize : ℤ → ℤ → Result ℤ
quantize c e =
    let q = to_cents c e in
    if leb precision_bound (magnitude q) then err invalid_operation else ok q

-- What a caller may hand over as an amount; `text` is any `str`.
pub data RawAmount : Type 0 where
  boolean float other : RawAmount
  decimal : Decimal → RawAmount
  int : ℤ → RawAmount
  text : Text → RawAmount

finite_cents : Decimal → Result ℤ
finite_cents (finite c e) = quantize c e
finite_cents infinite = err (domain validation_error)
finite_cents nan = err (domain validation_error)

module _ ⦃p : Python⦄ where
  unfoldable pub coerce_amount : RawAmount → Result ℤ
  unfolding finite_cents
  coerce_amount boolean = err (domain validation_error)
  coerce_amount float = err (domain validation_error)
  coerce_amount (decimal d) = finite_cents d
  coerce_amount (int n) = finite_cents (finite n (pos 0))
  coerce_amount (text s) = elim (p.read_decimal (strip s)) [
    | none ↦ err (domain validation_error)
    | some d ↦ finite_cents d
  ]
  coerce_amount other = err (domain validation_error)
