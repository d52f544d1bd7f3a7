-- ===== src/Analytics/Period/Shift.antt =====
-- Moving a period by months.
use finty.Base.{
  ℕ, zero, suc, ◌+◌, ◌-◌, ◌/◌, ◌%◌, ◌≤◌, ◌<◌, ◌≡◌, refl, ◌∙◌, ◌⊎◌, inl, inr, List, [], ◌∷◌, ◌++◌,
  arith, length, length-append, Bool-cases, sym, ap, subst,
}
use finty.Base.Int.{
  ◌<ℤ◌, ltb_ℤ, ℤ, pos, negsuc, neg, ◌+ℤ◌, ◌≤ℤ◌, floor_div, floor_mod, pos_part, neg_part, int_laws,
}
use finty.Shared.Errors.{domain, invalid_period, ok, err, >>=-eq-ok, ok-injective}
use finty.Analytics.Period.{Period, IsPeriod, index, period, shift, previous, window}

-- The place of the first month, and of the first month that is no longer a period's.
abbrev pub first_index : ℕ
first_index = 12

abbrev pub end_index : ℕ
end_index = 120000

-- A shifted period stands the given number of months further on.
abbrev pub IsShift : Period → ℤ → Period → Type 0
IsShift p n q = (pos (index q) ≡ pos (index p) +ℤ n) × IsPeriod q

index_period-ok :
    (i : ℤ)
    → pos first_index ≤ℤ i
    → pos_part i < end_index
    → (q : Period) × (period (floor_div i 12) (floor_mod i 12 + 1) ≡ ok q)
      × (pos (index q) ≡ i)
      × IsPeriod q
unfolding period floor_div floor_mod
index_period-ok (pos n) h k =
    (record { year = n / 12; month = n % 12 + 1 }, ground arith, ground arith, omega arith)
index_period-ok (negsuc n) h k = absurd (omega arith)

index_period-err :
    (i : ℤ)
    → (i <ℤ pos first_index) ⊎ (pos end_index ≤ℤ i)
    → period (floor_div i 12) (floor_mod i 12 + 1) ≡ err (domain invalid_period)
unfolding period floor_div floor_mod
index_period-err (pos n) (inl h) = ground arith
index_period-err (pos n) (inr h) = ground arith
index_period-err (negsuc n) h = ground arith

in_range-cases :
    (i : ℤ)
    → ((pos first_index ≤ℤ i) × (pos_part i < end_index))
      ⊎ ((i <ℤ pos first_index) ⊎ (pos end_index ≤ℤ i))
in_range-cases i = elim (Bool-cases (ltb_ℤ i (pos first_index))) [
  | inl y ↦ inr (inl (ground arith))
  | inr n ↦ elim (Bool-cases (ltb_ℤ i (pos end_index))) [
    | inl y ↦ inl (ground arith, ground arith)
    | inr m ↦ inr (inr (ground arith))
  ]
]

-- Shifting a period by any number of months, backwards too, gives the period that stands that many
-- months further on where it lies in the years 1 to 9999, and raises the error of periods
-- elsewhere.
pub shift-IsShift :
    (p : Period) (n : ℤ)
    → ((q : Period) × (shift p n ≡ ok q) × IsShift p n q)
      ⊎ ((shift p n ≡ err (domain invalid_period))
          × ((pos (index p) +ℤ n <ℤ pos first_index) ⊎ (pos end_index ≤ℤ pos (index p) +ℤ n)))
unfolding shift
shift-IsShift p n =
    let i = pos (index p) +ℤ n in
    elim (in_range-cases i) [
      | inl (low, high) ↦
          let (q, e, place, valid) = index_period-ok i low high in inl (q, e, (place, valid))
      | inr out ↦ inr (index_period-err i out, out)
    ]

pub shift-ok : (p : Period) (n : ℤ) {q : Period} → shift p n ≡ ok q → IsShift p n q
shift-ok p n e = elim (shift-IsShift p n) [
  | inl (r, found, h) ↦ rw (ok-injective (sym e ∙ found)) h
  | inr (raised, _) ↦ absurd (cc (sym e ∙ raised))
]

-- A period is told by its place.
index-injective : (p q : Period) → IsPeriod p → IsPeriod q → index p ≡ index q → p ≡ q
index-injective p q hp hq e =
    let same_year : p.year ≡ q.year = omega arith in
    let same_month : p.month ≡ q.month = omega arith in cc

pub sum_parts : (a b : ℕ) (n : ℤ) → pos a ≡ pos b +ℤ n → a + neg_part n ≡ b + pos_part n
unfolding ◌+ℤ◌
sum_parts a b n e = ground arith

-- Where a period of the years 1 to 9999 is shifted and the call returns, shifting the result back
-- returns the period.
pub shift_back :
    (p : Period) (n : ℤ) {q : Period} → IsPeriod p → shift p n ≡ ok q → shift q (neg n) ≡ ok p
shift_back p n {q = q} h e =
    let there = sum_parts (index q) (index p) n (shift-ok p n e).0 in
    elim (shift-IsShift q (neg n)) [
      | inl (r, found, back) ↦
          let again = sum_parts (index r) (index q) (neg n) back.0 in
          let same : index r ≡ index p = omega (int_laws, again, there) in
          found ∙ ap ok (index-injective r p back.1 h same)
      | inr (_, out) ↦ absurd (grind (int_laws, there))
    ]

-- The periods of the places from `from` up to, and without, `to`, in their order.
abbrev pub IsRun : ℕ → List Period → ℕ → Type 0
IsRun from [] to = from ≡ to
IsRun from (q ∷ ps) to = (index q ≡ from) × IsRun (from + 1) ps to

IsRun-append :
    (from : ℕ) (ps : List Period) (p : Period)
    → IsRun from ps (index p)
    → IsRun from (ps ++ (p ∷ [])) (index p + 1)
IsRun-append from [] p h = (sym h, omega arith)
IsRun-append from (q ∷ ps) p (here, h) = (here, IsRun-append (from + 1) ps p h)

previous-IsRun :
    (n : ℕ) (p : Period) {ps : List Period}
    → previous n p ≡ ok ps
    → IsRun (index p - n) ps (index p) × (length ps ≡ n) × (n ≤ index p)
unfolding previous
previous-IsRun zero p e = rw (← ok-injective e) (omega arith, refl, omega arith)
previous-IsRun (suc n) p e =
    let (q, shifted, e₁) = >>=-eq-ok _ _ e in
    let (rest, before, e₂) = >>=-eq-ok _ _ e₁ in
    let (run, long, _) = previous-IsRun n p before in
    let place = sum_parts (index q) (index p) (neg (pos (suc n))) (shift-ok p _ shifted).0 in
    let there : index q + suc n ≡ index p = omega (int_laws, place) in
    rw (← ok-injective e₂) (
      (omega arith, subst (λ i. IsRun i rest (index p)) (omega (arith, there)) run),
      omega (arith, long),
      omega (arith, there),
    )

-- A window of at least one period that returns has that many periods, one month after the other,
-- and the last is the given one.
pub window-IsRun :
    (size : ℕ) (p : Period) {ps : List Period}
    → 1 ≤ size
    → window size p ≡ ok ps
    → IsRun (index p + 1 - size) ps (index p + 1) × (length ps ≡ size)
unfolding window
window-IsRun size p h e =
    let (before, found, e₁) = >>=-eq-ok _ _ e in
    let (run, long, low) = previous-IsRun (size - 1) p found in
    rw (← ok-injective e₁) (
      subst (λ i. IsRun i (before ++ (p ∷ [])) (index p + 1)) (omega arith)
          (IsRun-append (index p - (size - 1)) before p run),
      omega (arith, length-append before (p ∷ [])),
    )
