-- ===== src/Analytics/Period/Days.antt =====
-- The days of a period: from its first day up to, and without, the first of the next.
use finty.Base.{◌+◌, ◌≤◌, ◌≡◌, Bool, not, ◌&&◌, arith}
use finty.Base.Int.{pos}
use finty.Shared.Errors.{ok, >>=-eq-ok, ok-injective}
use finty.Analytics.Period.{
  Period, Date, IsPeriod, index, start, end, period_of, period_eq, date_ltb,
}
use finty.Analytics.Period.Shift.{shift-ok, sum_parts}

-- The test of the queries: `occurred_on >= start` and `occurred_on < end`.
abbrev pub is_between : Date → Date → Date → Bool
is_between first last d = not (date_ltb d first) && date_ltb d last

-- What a date has that `datetime` makes.
abbrev pub IsDate : Date → Type 0
IsDate d = (1 ≤ d.month) × (d.month ≤ 12) × (1 ≤ d.day)

end-index :
    (p : Period) {last : Date}
    → end p ≡ ok last
    → (q : Period) × (last ≡ start q) × (index q ≡ index p + 1) × IsPeriod q
unfolding end
end-index p e =
    let (q, shifted, e₁) = >>=-eq-ok _ _ e in
    let (place, valid) = shift-ok p _ shifted in
    (q, cc (ok-injective e₁), omega (arith, sum_parts (index q) (index p) (pos 1) place), valid)

days_between :
    (p q : Period) (d : Date)
    → IsPeriod p
    → IsPeriod q
    → IsDate d
    → index q ≡ index p + 1
    → is_between (start p) (start q) d ≡ period_eq (period_of d) p
days_between p q d hp hq hd next = ground arith

-- For a period of the years 1 to 9999 that has an end, a day lies from its start up to its end
-- exactly when the period is that of the day.
pub is_between_iff :
    (p : Period) (d : Date) {last : Date}
    → IsPeriod p
    → IsDate d
    → end p ≡ ok last
    → is_between (start p) last d ≡ period_eq (period_of d) p
is_between_iff p d hp hd e =
    let (q, same, next, hq) = end-index p e in rw same (days_between p q d hp hq hd next)
