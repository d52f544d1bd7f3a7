-- ===== src/Analytics/Report/Totals.antt =====
-- The summary of a report: every fact of the month is counted once, under its currency, type and
-- category.
use finty.Base.{
  ℕ, ◌+◌, ◌≡◌, refl, ap, ◌∙◌, inl, inr, Bool, true, Option, none, some, List, [], ◌∷◌, map, arith,
  keep, Bool-cases, insert_by, order_by, if◌then◌else◌,
}
use finty.Base.Int.{ℤ, pos, ◌+ℤ◌, int_laws, +ℤ_zero}
use finty.Base.Text.{Text, text_eq_iff}
use finty.Shared.Errors.{ok, >>=-eq-ok, ok-injective}
use finty.Shared.Python.{Python}
use finty.Shared.Currency.{text}
use finty.Shared.Money.{Money, zero, money}
use finty.Shared.Decimal.{coerce_amount, quantize, to_cents, with_sign}
use finty.Shared.Money.Laws.{add-ok}
use finty.Finance.ValueObjects.{TransactionType, income, expense}
use finty.Analytics.Period.{Period, period_eq, period_of}
use finty.Analytics.Facts.{TransactionFact}
use finty.Analytics.Report.{
  ReportLine, ReportSummaryLine, MonthlyReport, Key, type_eq, fact_key, summary_key, key_eq,
  category_eq, line_of, line_ltb, summary_ltb, new_group, extended, add_fact, group_facts, build,
}

-- The facts of a month.
abbrev pub own_facts : Period → List TransactionFact → List TransactionFact
own_facts q facts = keep (λ f. period_eq (period_of f.occurred_on) q) facts

abbrev share : Bool → ℤ → ℤ
share b n = if b then n else pos 0

abbrev one : Bool → ℕ
one b = if b then 1 else 0

-- What a list of groups holds under a key.
abbrev pub total_at : Key → List ReportSummaryLine → ℤ
total_at k [] = pos 0
total_at k (l ∷ ls) = share (key_eq (summary_key l) k) l.total.amount +ℤ total_at k ls

abbrev pub count_at : Key → List ReportSummaryLine → ℕ
count_at k [] = 0
count_at k (l ∷ ls) = (if key_eq (summary_key l) k then l.count else 0) + count_at k ls

-- The sum and the number of the facts with a key.
abbrev pub facts_total : Key → List TransactionFact → ℤ
facts_total k [] = pos 0
facts_total k (f ∷ fs) = share (key_eq (fact_key f) k) f.amount.amount +ℤ facts_total k fs

abbrev pub facts_count : Key → List TransactionFact → ℕ
facts_count k [] = 0
facts_count k (f ∷ fs) = one (key_eq (fact_key f) k) + facts_count k fs

category_eq-same : (a b : Option Text) → category_eq a b ≡ true → a ≡ b
unfolding category_eq
category_eq-same none none e = refl
category_eq-same (some a) (some b) e = ap some ((text_eq_iff a b).0 e)
category_eq-same none (some b) e = cc
category_eq-same (some a) none e = cc

type_eq-same : (a b : TransactionType) → type_eq a b ≡ true → a ≡ b
type_eq-same income income e = refl
type_eq-same expense expense e = refl
type_eq-same income expense e = cc
type_eq-same expense income e = cc

key_eq-same : (a b : Key) → key_eq a b ≡ true → a ≡ b
unfolding key_eq
key_eq-same a b e = ground (
  arith,
  text_eq_iff a.currency b.currency,
  type_eq-same a.transaction_type b.transaction_type,
  category_eq-same a.category_name b.category_name,
)

-- The lines that pass a test.
abbrev pub passing {ℓ} : {A : Type ℓ} → (A → Bool) → List A → ℕ
passing q [] = 0
passing q (a ∷ m) = one (q a) + passing q m

+ℤ_swap : (a b c : ℤ) → a +ℤ (b +ℤ c) ≡ b +ℤ (a +ℤ c)
+ℤ_swap a b c = omega int_laws

module _ {A : Type 0} (before : A → A → Bool) where
  passing-insert_by :
      (q : A → Bool) (a : A) (m : List A) → passing q (insert_by before a m) ≡ passing q (a ∷ m)
  passing-insert_by q a [] = refl
  passing-insert_by q a (b ∷ m) = elim (Bool-cases (before b a)) [
    | inl y ↦ rw y (omega (arith, passing-insert_by q a m))
    | inr n ↦ rw n refl
  ]

  passing-order_by : (q : A → Bool) (m : List A) → passing q (order_by before m) ≡ passing q m
  passing-order_by q [] = refl
  passing-order_by q (a ∷ m) =
      passing-insert_by q a (order_by before m) ∙ ap (λ n. one (q a) + n) (passing-order_by q m)

passing-map :
    (q : ReportLine → Bool) (fs : List TransactionFact)
    → passing q (map line_of fs) ≡ passing (λ f. q (line_of f)) fs
passing-map q [] = refl
passing-map q (f ∷ fs) = ap (λ n. one (q (line_of f)) + n) (passing-map q fs)

module _ (before : ReportSummaryLine → ReportSummaryLine → Bool) (k : Key) where
  total_at-insert_by :
      (l : ReportSummaryLine) (m : List ReportSummaryLine)
      → total_at k (insert_by before l m) ≡ total_at k (l ∷ m)
  total_at-insert_by l [] = refl
  total_at-insert_by l (b ∷ m) = elim (Bool-cases (before b l)) [
    | inl y ↦
        let held = share (key_eq (summary_key b) k) b.total.amount in
        rw y (
          ap (λ n. held +ℤ n) (total_at-insert_by l m)
          ∙ +ℤ_swap held (share (key_eq (summary_key l) k) l.total.amount) (total_at k m))
    | inr n ↦ rw n refl
  ]

  total_at-order_by : (m : List ReportSummaryLine) → total_at k (order_by before m) ≡ total_at k m
  total_at-order_by [] = refl
  total_at-order_by (l ∷ m) =
      total_at-insert_by l (order_by before m)
      ∙ ap (λ n. share (key_eq (summary_key l) k) l.total.amount +ℤ n) (total_at-order_by m)

  count_at-insert_by :
      (l : ReportSummaryLine) (m : List ReportSummaryLine)
      → count_at k (insert_by before l m) ≡ count_at k (l ∷ m)
  count_at-insert_by l [] = refl
  count_at-insert_by l (b ∷ m) = elim (Bool-cases (before b l)) [
    | inl y ↦ rw y (omega (arith, count_at-insert_by l m))
    | inr n ↦ rw n refl
  ]

  count_at-order_by : (m : List ReportSummaryLine) → count_at k (order_by before m) ≡ count_at k m
  count_at-order_by [] = refl
  count_at-order_by (l ∷ m) =
      count_at-insert_by l (order_by before m)
      ∙ ap (λ n. (if key_eq (summary_key l) k then l.count else 0) + n) (count_at-order_by m)

add_zero : (n : ℕ) → n + 0 ≡ n
add_zero n = omega arith

zero-amount : ⦃p : Python⦄ (c : Text) {m : Money} → zero (text c) ≡ ok m → m.amount ≡ pos 0
unfolding zero money coerce_amount quantize to_cents with_sign
zero-amount c e =
    let (a, coerced, e₁) = >>=-eq-ok _ _ e in let (d, valid, e₂) = >>=-eq-ok _ _ e₁ in ground arith

-- What a report says of the facts that it was built from.
pub record IsReport (q : Period) (facts : List TransactionFact) (r : MonthlyReport) : Type 0 where
  pub of_period : r.period ≡ q
  pub totals : (k : Key) → total_at k r.summary ≡ facts_total k (own_facts q facts)
  pub counts : (k : Key) → count_at k r.summary ≡ facts_count k (own_facts q facts)
  pub listed :
      (test : ReportLine → Bool)
      → passing test r.lines ≡ passing (λ f. test (line_of f)) (own_facts q facts)

module _ ⦃p : Python⦄ where
  -- The group of a new key holds the fact alone; that of a known key holds it too.
  abbrev Holds : TransactionFact → ℤ → ℕ → ReportSummaryLine → Type 0
  Holds f n c l =
      (summary_key l ≡ fact_key f) × (l.total.amount ≡ n +ℤ f.amount.amount) × (l.count ≡ c + 1)

  new_group-Holds :
      (f : TransactionFact) {l : ReportSummaryLine} → new_group f ≡ ok l → Holds f (pos 0) 0 l
  unfolding new_group
  new_group-Holds f e =
      let (nothing, made, e₁) = >>=-eq-ok _ _ e in
      let (total, added, e₂) = >>=-eq-ok _ _ e₁ in
      let amount = (add-ok nothing f.amount added).0 in
      let from_zero = zero-amount f.amount.currency made in
      rw (← ok-injective e₂) (refl, amount ∙ ap (λ n. n +ℤ f.amount.amount) from_zero, omega arith)

  extended-Holds :
      (l : ReportSummaryLine) (f : TransactionFact) {m : ReportSummaryLine}
      → summary_key l ≡ fact_key f
      → extended l f ≡ ok m
      → Holds f l.total.amount l.count m
  unfolding extended
  extended-Holds l f same e =
      let (total, added, e₁) = >>=-eq-ok _ _ e in
      rw (← ok-injective e₁) (same, (add-ok l.total f.amount added).0, refl)

  -- What a list of groups holds under a key after one more fact.
  abbrev HasMore : TransactionFact → List ReportSummaryLine → List ReportSummaryLine → Type 0
  HasMore f before after =
      (k : Key)
      → (total_at k after ≡ share (key_eq (fact_key f) k) f.amount.amount +ℤ total_at k before)
        × (count_at k after ≡ one (key_eq (fact_key f) k) + count_at k before)

  Holds-HasMore :
      (f : TransactionFact) (l : ReportSummaryLine) (ls : List ReportSummaryLine)
      (m : ReportSummaryLine)
      → summary_key l ≡ fact_key f
      → Holds f l.total.amount l.count m
      → HasMore f (l ∷ ls) (m ∷ ls)
  Holds-HasMore f l ls m same (key, amount, count) k =
      rw (key, same, amount, count)
        (elim (Bool-cases (key_eq (fact_key f) k)) [
          | inl y ↦ rw y (omega int_laws, omega arith)
          | inr n ↦ rw n (omega int_laws, omega arith)
        ])

  add_fact-HasMore :
      (f : TransactionFact) (ls : List ReportSummaryLine) {after : List ReportSummaryLine}
      → add_fact f ls ≡ ok after
      → HasMore f ls after
  unfolding add_fact
  add_fact-HasMore f [] e k =
      let (l, made, e₁) = >>=-eq-ok _ _ e in
      let (key, amount, count) = new_group-Holds f made in
      rw (← ok-injective e₁, key, amount, count)
        (elim (Bool-cases (key_eq (fact_key f) k)) [
          | inl y ↦ rw y (omega int_laws, omega arith)
          | inr n ↦ rw n (omega int_laws, omega arith)
        ])
  add_fact-HasMore f (l ∷ ls) e k = elim (Bool-cases (key_eq (summary_key l) (fact_key f))) [
    | inl y ↦
        let same = key_eq-same (summary_key l) (fact_key f) y in
        let (m, grown, e₁) = >>=-eq-ok _ _ (rw (y, add_fact) at e) in
        rw (← ok-injective e₁) (Holds-HasMore f l ls m same (extended-Holds l f same grown) k)
    | inr n ↦
        let (rest, grown, e₁) = >>=-eq-ok _ _ (rw (n, add_fact) at e) in
        let (total, count) = add_fact-HasMore f ls grown k in
        let held = share (key_eq (summary_key l) k) l.total.amount in
        rw (← ok-injective e₁) (
          ap (λ i. held +ℤ i) total
              ∙ +ℤ_swap held (share (key_eq (fact_key f) k) f.amount.amount) (total_at k ls),
          omega (arith, count),
        )
  ]

  group_facts-HasAll :
      (fs : List TransactionFact) (ls : List ReportSummaryLine) {after : List ReportSummaryLine}
      → group_facts fs ls ≡ ok after
      → (k : Key)
      → (total_at k after ≡ facts_total k fs +ℤ total_at k ls)
        × (count_at k after ≡ facts_count k fs + count_at k ls)
  unfolding group_facts
  group_facts-HasAll [] ls e k = rw (← ok-injective e) (omega int_laws, omega arith)
  group_facts-HasAll (f ∷ fs) ls e k =
      let (next, added, e₁) = >>=-eq-ok _ _ e in
      let (total, count) = add_fact-HasMore f ls added k in
      let (all_total, all_count) = group_facts-HasAll fs next e₁ k in
      let held = share (key_eq (fact_key f) k) f.amount.amount in
      (
        all_total ∙ ap (λ i. facts_total k fs +ℤ i) total ∙ omega int_laws,
        omega (arith, all_count, count),
      )

  -- Where a report is built, it is of the period; for each currency, type and category its summary
  -- holds the sum and the number of the facts of the month with them, and its lines are those of
  -- the facts of the month: as many pass any test.
  pub build-IsReport :
      (q : Period) (facts : List TransactionFact) {r : MonthlyReport}
      → build q facts ≡ ok r
      → IsReport q facts r
  unfolding build
  build-IsReport q facts e =
      let own = own_facts q facts in
      let (groups, grouped, e₁) = >>=-eq-ok _ _ e in
      let all = group_facts-HasAll own [] grouped in
      rw (← ok-injective e₁) (record {
        of_period = refl;
        totals =
            λ k. total_at-order_by summary_ltb k groups ∙ (all k).0 ∙ +ℤ_zero (facts_total k own);
        counts =
            λ k. count_at-order_by summary_ltb k groups ∙ (all k).1 ∙ add_zero (facts_count k own);
        listed = λ test. passing-order_by line_ltb test (map line_of own) ∙ passing-map test own;
      })
