-- ===== src/Shared/Tests.antt =====
-- The theorems of the shared domain core at concrete values.
use finty.Base.{◌*◌, ◌+◌, ◌^◌, ◌≤◌, ◌<◌, ◌≡◌, refl, none, [], ◌∷◌, arith}
use finty.Base.Int.{neg, pos, negsuc, magnitude, ◌+ℤ◌}
use finty.Base.Text.{codes, strip, text_eq}
use finty.Shared.Errors.{ok, ◌>>=◌, ◌>>◌}
use finty.Shared.Python.{Python, upper}
use finty.Shared.Decimal.{
  coerce_amount, quantize, to_cents, round_half_up, with_sign, precision_bound,
}
use finty.Shared.Decimal.Rounding.{quantize_nearest}
use finty.Shared.Currency.{RawText, validate_currency_code, IsCode}
use finty.Shared.Currency as Currency
use finty.Shared.Money.{add, subtract, require_same_currency, money}
use finty.Shared.Money.Laws.{money_of, IsMoney, subtract-add}

instance abbrev ascii : Python
ascii = record { upper_other = λ c. []; lower_other = λ c. c ∷ []; read_decimal = λ s. none }

-- 12.345 is 12.35, and -0.125 is -0.13.
half_up :
    (quantize (pos 12345) (negsuc 2) ≡ ok (pos 1235))
    × (quantize (negsuc 124) (negsuc 2) ≡ ok (negsuc 12))
unfolding quantize to_cents round_half_up with_sign neg
half_up = (refl, refl)

nearest_example :
    (2 * (magnitude (negsuc 12) * 10 ^ 1) ≤ 2 * magnitude (negsuc 124) + 10 ^ 1)
    × (2 * magnitude (negsuc 124) < 2 * (magnitude (negsuc 12) * 10 ^ 1) + 10 ^ 1)
    × (negsuc 12 ≡ with_sign (negsuc 124) (magnitude (negsuc 12)))
    × (magnitude (negsuc 12) < precision_bound)
nearest_example = quantize_nearest (negsuc 124) 1 half_up.1

dollars : validate_currency_code (RawText.text (codes " usd ")) ≡ ok (codes "USD")
unfolding validate_currency_code upper strip
dollars = refl

usd_accepted : (codes "USD" ≡ upper (strip (codes " usd "))) × IsCode (codes "USD")
usd_accepted = Currency.validate-IsCode (codes " usd ") (λ c. tt) dollars

dollars_sum :
    add (money_of (pos 5) (codes "USD")) (money_of (pos 7) (codes "USD"))
    ≡ ok (money_of (pos 12) (codes "USD"))
unfolding text_eq add require_same_currency ◌>>◌ ◌>>=◌ money coerce_amount quantize to_cents
    round_half_up with_sign ◌+ℤ◌ neg validate_currency_code upper strip
dollars_sum = refl

dollars_IsMoney : IsMoney (money_of (pos 5) (codes "USD"))
dollars_IsMoney = record { fits = omega arith; code = usd_accepted.1 }

subtract_example :
    subtract (money_of (pos 12) (codes "USD")) (money_of (pos 7) (codes "USD"))
    ≡ ok (money_of (pos 5) (codes "USD"))
subtract_example =
    subtract-add (money_of (pos 5) (codes "USD")) (money_of (pos 7) (codes "USD")) dollars_IsMoney
      dollars_sum
