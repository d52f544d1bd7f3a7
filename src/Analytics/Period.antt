-- ===== src/Analytics/Period.antt =====
-- `Period` (services/analytics-service/domain/period.py). A date of `datetime` is its year, month and
-- day, which is what it is compared by.
pub mod Shift
pub mod Printed
pub mod Days
mod Tests
use finty.Base.{
  ℕ, zero, suc, ◌+◌, ◌-◌, ◌*◌, ◌/◌, ◌%◌, ◌≤◌, Bool, true, false, ◌&&◌, ◌||◌, Option, none, some,
  List, [], ◌∷◌, ◌++◌, ltb, leb, ◌==◌, if◌then◌else◌,
}
use finty.Base.Int.{ℤ, pos, neg, ◌+ℤ◌, floor_div, floor_mod, pos_part, eqb_ℤ}
use finty.Base.Text.{Text, strip}
use finty.Shared.Errors.{domain, invalid_period, Result, ok, err, ◌>>=◌}
use finty.Shared.Currency.{RawText, text, other}

pub record Period : Type 0 where
  pub year : ℕ
  pub month : ℕ

pub record Date : Type 0 where
  pub year : ℕ
  pub month : ℕ
  pub day : ℕ

abbrev pub months_per_year : ℕ
months_per_year = 12

-- What `__post_init__` lets through.
abbrev pub is_period : ℕ → ℕ → Bool
is_period y m = (leb 1 m && leb m months_per_year) && (leb 1 y && leb y 9999)

-- `Period(year, month)`, with `__post_init__`; an integer below 0 is refused as 0 is.
unfoldable pub period : ℤ → ℕ → Result Period
period y m =
    if is_period (pos_part y) m
    then ok (record { year = pos_part y; month = m })
    else err (domain invalid_period)

abbrev pub IsPeriod : Period → Type 0
IsPeriod p = (1 ≤ p.month) × (p.month ≤ months_per_year) × (1 ≤ p.year) × (p.year ≤ 9999)

-- What `int` reads in a `\d` beyond ASCII.
pub record Digits : Type 0 where
  pub digit_other : ℕ → Option ℕ

module _ ⦃d : Digits⦄ where
  unfoldable pub digit : ℕ → Option ℕ
  digit c =
      if leb 128 c
      then d.digit_other c
      else if leb b'0' c && leb c b'9'
      then some (c - b'0')
      else none

  -- `int` of a run of `\d`, from the number that stands before it.
  unfoldable pub number : ℕ → Text → Option ℕ
  number n [] = some n
  number n (c ∷ s) = elim (digit c) [ none ↦ none | some k ↦ number (n * 10 + k) s ]

  unfoldable pub matched : Option ℕ → Option ℕ → Result Period
  matched (some y) (some m) = period (pos y) m
  matched (some y) none = err (domain invalid_period)
  matched none m = err (domain invalid_period)

  -- `_PERIOD_RE`, which has seven characters.
  unfoldable pub parse_stripped : Text → Result Period
  unfolding number
  parse_stripped (a ∷ b ∷ c ∷ e ∷ h ∷ f ∷ g ∷ []) =
      if h == b'-'
      then matched (number 0 (a ∷ b ∷ c ∷ e ∷ [])) (number 0 (f ∷ g ∷ []))
      else err (domain invalid_period)
  parse_stripped _ = err (domain invalid_period)

  -- `Period.parse`
  unfoldable pub parse : RawText → Result Period
  parse (text s) = parse_stripped (strip s)
  parse other = err (domain invalid_period)

-- `Period.of`; a date is always a period's.
abbrev pub period_of : Date → Period
period_of d = record { year = d.year; month = d.month }

abbrev pub index : Period → ℕ
index p = p.year * months_per_year + p.month - 1

-- `shift`
unfoldable pub shift : Period → ℤ → Result Period
shift p months =
    let i = pos (index p) +ℤ months in
    period (floor_div i months_per_year) (floor_mod i months_per_year + 1)

-- `previous`: the offsets fall from `count` to 1.
unfoldable pub previous : ℕ → Period → Result (List Period)
previous zero p = ok []
previous (suc n) p = do q ← shift p (neg (pos (suc n))); rest ← previous n p; ok (q ∷ rest)

-- `window`
unfoldable pub window : ℕ → Period → Result (List Period)
window size p = do before ← previous (size - 1) p; ok (before ++ (p ∷ []))

abbrev pub start : Period → Date
start p = record { year = p.year; month = p.month; day = 1 }

-- `end`
unfoldable pub end : Period → Result Date
end p = do q ← shift p (pos 1); ok (start q)

-- `__str__`: four digits and two, which the bounds of a period make enough.
abbrev digit_of : ℕ → ℕ
digit_of n = b'0' + n % 10

unfoldable pub print : Period → Text
print p =
    digit_of (p.year / 1000)
    ∷ digit_of (p.year / 100)
    ∷ digit_of (p.year / 10)
    ∷ digit_of p.year
    ∷ b'-'
    ∷ digit_of (p.month / 10)
    ∷ digit_of p.month
    ∷ []

-- The order of `datetime.date` and, without the day, of `Period`.
abbrev pub date_ltb : Date → Date → Bool
date_ltb a b =
    ltb a.year b.year
    || (a.year == b.year && (ltb a.month b.month || (a.month == b.month && ltb a.day b.day)))

abbrev pub period_eq : Period → Period → Bool
period_eq a b = (a.year == b.year) && (a.month == b.month)
