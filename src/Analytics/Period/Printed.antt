-- ===== src/Analytics/Period/Printed.antt =====
-- `str` of a period and `Period.parse`.
use finty.Base.{ℕ, ◌+◌, ◌*◌, ◌%◌, ◌/◌, ◌≡◌, refl, ◌∙◌, ap, ap₂, some, [], ◌∷◌, arith}
use finty.Base.Int.{pos}
use finty.Base.Text.{Text, strip-letters7, is_space-digit}
use finty.Shared.Errors.{ok}
use finty.Shared.Currency.{text}
use finty.Analytics.Period.{
  Period, IsPeriod, Digits, digit, number, matched, period, parse, parse_stripped, print,
}

module _ ⦃d : Digits⦄ where
  digit-digit_of : (n : ℕ) → digit (b'0' + n % 10) ≡ some (n % 10)
  unfolding digit
  digit-digit_of n = ground arith

  number-digit : (n a : ℕ) (s : Text) → number n ((b'0' + a % 10) ∷ s) ≡ number (n * 10 + a % 10) s
  unfolding number
  number-digit n a s = rw (digit-digit_of a, number) refl

  number-two :
      (n a b : ℕ)
      → number n ((b'0' + a % 10) ∷ (b'0' + b % 10) ∷ []) ≡ some ((n * 10 + a % 10) * 10 + b % 10)
  unfolding number
  number-two n a b = number-digit n a ((b'0' + b % 10) ∷ []) ∙ number-digit (n * 10 + a % 10) b []

  number-four :
      (a b c e : ℕ)
      → number 0 ((b'0' + a % 10) ∷ (b'0' + b % 10) ∷ (b'0' + c % 10) ∷ (b'0' + e % 10) ∷ [])
        ≡ some ((((0 * 10 + a % 10) * 10 + b % 10) * 10 + c % 10) * 10 + e % 10)
  number-four a b c e =
      number-digit 0 a ((b'0' + b % 10) ∷ (b'0' + c % 10) ∷ (b'0' + e % 10) ∷ [])
      ∙ number-digit (0 * 10 + a % 10) b ((b'0' + c % 10) ∷ (b'0' + e % 10) ∷ [])
      ∙ number-two ((0 * 10 + a % 10) * 10 + b % 10) c e

  period_lem : (p : Period) → IsPeriod p → period (pos p.year) p.month ≡ ok p
  unfolding period
  period_lem p h = ground arith

  -- The text of a period of the years 1 to 9999 is read as that period.
  pub parse-print : (p : Period) → IsPeriod p → parse (text (print p)) ≡ ok p
  unfolding parse parse_stripped print matched
  parse-print p h =
      let year : (((0 * 10 + p.year / 1000 % 10) * 10 + p.year / 100 % 10) * 10 + p.year / 10 % 10)
              * 10
            + p.year % 10
          ≡ p.year =
        omega arith in
      let month : (0 * 10 + p.month / 10 % 10) * 10 + p.month % 10 ≡ p.month = omega arith in
      let years = number-four (p.year / 1000) (p.year / 100) (p.year / 10) p.year ∙ ap some year in
      let months = number-two 0 (p.month / 10) p.month ∙ ap some month in
      ap parse_stripped (
        strip-letters7 _ _ _ _ _ _ _ (is_space-digit _ (omega arith) (omega arith))
          (is_space-digit _ (omega arith) (omega arith)))
      ∙ ap₂ matched years months
      ∙ period_lem p h
