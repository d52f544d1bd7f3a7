-- ===== src/Analytics/Period/Tests.antt =====
-- The theorems on periods at concrete months.
use finty.Base.{ℕ, ◌+◌, ◌-◌, ◌≡◌, refl, ◌⊎◌, none, List, [], ◌∷◌, arith, length}
use finty.Base.Int.{pos, negsuc, neg, ◌+ℤ◌, ◌≤ℤ◌, ◌<ℤ◌, floor_div, floor_mod}
use finty.Shared.Errors.{domain, invalid_period, ok, err, ◌>>=◌}
use finty.Shared.Currency.{text}
use finty.Analytics.Period.{
  Period, Date, Digits, index, period, shift, previous, window, start, end, period_of, period_eq,
  parse, print,
}
use finty.Analytics.Period.Shift.{
  first_index, end_index, IsShift, IsRun, shift-IsShift, shift_back, window-IsRun,
}
use finty.Analytics.Period.Printed.{parse-print}
use finty.Analytics.Period.Days.{is_between, is_between_iff}

instance abbrev ascii_digits : Digits
ascii_digits = record { digit_other = λ c. none }

abbrev month_of : ℕ → ℕ → Period
month_of y m = record { year = y; month = m }

abbrev january : Period
january = month_of 2026 1

december_before : shift january (negsuc 0) ≡ ok (month_of 2025 12)
unfolding shift period floor_div floor_mod ◌+ℤ◌
december_before = refl

shift_example :
    ((q : Period) × (shift january (negsuc 0) ≡ ok q) × IsShift january (negsuc 0) q)
    ⊎ ((shift january (negsuc 0) ≡ err (domain invalid_period))
        × ((pos (index january) +ℤ negsuc 0 <ℤ pos first_index)
            ⊎ (pos end_index ≤ℤ pos (index january) +ℤ negsuc 0)))
shift_example = shift-IsShift january (negsuc 0)

back_example : shift (month_of 2025 12) (neg (negsuc 0)) ≡ ok january
back_example = shift_back january (negsuc 0) (omega arith) december_before

abbrev quarter : List Period
quarter = month_of 2025 11 ∷ month_of 2025 12 ∷ january ∷ []

windowed : window 3 january ≡ ok quarter
unfolding window previous shift period floor_div floor_mod ◌+ℤ◌ neg ◌>>=◌
windowed = refl

window_example : IsRun (index january + 1 - 3) quarter (index january + 1) × (length quarter ≡ 3)
window_example = window-IsRun 3 january (omega arith) windowed

parse_example : parse (text (print january)) ≡ ok january
parse_example = parse-print january (omega arith)

abbrev a_day : Date
a_day = record { year = 2026; month = 1; day = 31 }

ended : end january ≡ ok (start (month_of 2026 2))
unfolding end shift period floor_div floor_mod ◌+ℤ◌ ◌>>=◌
ended = refl

day_example :
    is_between (start january) (start (month_of 2026 2)) a_day ≡ period_eq (period_of a_day) january
day_example = is_between_iff january a_day (omega arith) (omega arith) ended
