-- ===== src/Analytics/Report.antt =====
-- The monthly report (services/analytics-service/domain/report.py).
pub mod Totals
use finty.Base.{
  ℕ, suc, ◌+◌, Bool, true, false, ◌&&◌, ◌||◌, Option, none, some, List, [], ◌∷◌, map, keep, ltb,
  ◌==◌, order_by, if◌then◌else◌,
}
use finty.Base.Int.{ltb_ℤ, eqb_ℤ}
use finty.Base.Text.{Text, codes, strip, text_eq}
use finty.Shared.Errors.{Result, ok, ◌>>=◌}
use finty.Shared.Python.{Python, lower}
use finty.Shared.Currency.{text}
use finty.Shared.Money.{Money, zero, add}
use finty.Finance.ValueObjects.{TransactionType, income, expense}
use finty.Analytics.Period.{Period, Date, date_ltb, period_eq, period_of}
use finty.Analytics.Facts.{TransactionFact}

pub data ReportStatus : Type 0 where
  pending ready failed : ReportStatus

-- `code.split("-")[0]`
before_dash : Text → Text
before_dash [] = []
before_dash (c ∷ s) = if c == b'-' then [] else c ∷ before_dash s

module _ ⦃p : Python⦄ where
  language_of : Text → Text
  language_of prefix =
      if text_eq prefix (codes "es") || text_eq prefix (codes "en") then prefix else codes "es"

  -- `report_language`; `none` is taken for the empty text.
  unfoldable pub report_language : Option Text → Text
  unfolding language_of before_dash
  report_language none = language_of (lower (strip (before_dash [])))
  report_language (some code) = language_of (lower (strip (before_dash code)))

abbrev pub can_generate : ReportStatus → Bool
can_generate pending = true
can_generate ready = false
can_generate failed = false

pub record ReportLine : Type 0 where
  pub occurred_on : Date
  pub transaction_type : TransactionType
  pub category_name : Option Text
  pub description : Text
  pub amount : Money

pub record ReportSummaryLine : Type 0 where
  pub currency : Text
  pub transaction_type : TransactionType
  pub category_name : Option Text
  pub total : Money
  pub count : ℕ

pub record MonthlyReport : Type 0 where
  pub period : Period
  pub lines : List ReportLine
  pub summary : List ReportSummaryLine

-- `<` and `==` of texts.
text_ltb : Text → Text → Bool
text_ltb [] [] = false
text_ltb [] (b ∷ t) = true
text_ltb (a ∷ s) [] = false
text_ltb (a ∷ s) (b ∷ t) = ltb a b || (a == b && text_ltb s t)

-- `"income"` stands after `"expense"`.
type_ltb : TransactionType → TransactionType → Bool
type_ltb expense income = true
type_ltb expense expense = false
type_ltb income t = false

abbrev pub type_eq : TransactionType → TransactionType → Bool
type_eq income income = true
type_eq expense expense = true
type_eq income expense = false
type_eq expense income = false

-- `category_name or ""`
or_empty : Option Text → Text
or_empty none = []
or_empty (some s) = s

date_eq : Date → Date → Bool
date_eq a b = (a.year == b.year) && ((a.month == b.month) && (a.day == b.day))

-- The `key` tuples, compared field by field.
line_ltb : ReportLine → ReportLine → Bool
unfolding type_ltb text_ltb or_empty date_eq
line_ltb a b =
    date_ltb a.occurred_on b.occurred_on
    || (date_eq a.occurred_on b.occurred_on
        && (type_ltb a.transaction_type b.transaction_type
            || (type_eq a.transaction_type b.transaction_type
                && (text_ltb (or_empty a.category_name) (or_empty b.category_name)
                    || (text_eq (or_empty a.category_name) (or_empty b.category_name)
                        && (text_ltb a.description b.description
                            || (text_eq a.description b.description
                                && (text_ltb a.amount.currency b.amount.currency
                                    || (text_eq a.amount.currency b.amount.currency
                                        && ltb_ℤ a.amount.amount b.amount.amount)))))))))

summary_ltb : ReportSummaryLine → ReportSummaryLine → Bool
unfolding type_ltb text_ltb or_empty
summary_ltb a b =
    text_ltb a.currency b.currency
    || (text_eq a.currency b.currency
        && (type_ltb a.transaction_type b.transaction_type
            || (type_eq a.transaction_type b.transaction_type
                && text_ltb (or_empty a.category_name) (or_empty b.category_name))))

abbrev pub line_of : TransactionFact → ReportLine
line_of f = record {
  occurred_on = f.occurred_on;
  transaction_type = f.transaction_type;
  category_name = f.category_name;
  description = f.description;
  amount = f.amount;
}

-- The key of a group.
pub record Key : Type 0 where
  pub currency : Text
  pub transaction_type : TransactionType
  pub category_name : Option Text

abbrev pub fact_key : TransactionFact → Key
fact_key f = record {
  currency = f.amount.currency;
  transaction_type = f.transaction_type;
  category_name = f.category_name;
}

abbrev pub summary_key : ReportSummaryLine → Key
summary_key l = record {
  currency = l.currency;
  transaction_type = l.transaction_type;
  category_name = l.category_name;
}

category_eq : Option Text → Option Text → Bool
category_eq none none = true
category_eq (some a) (some b) = text_eq a b
category_eq none (some b) = false
category_eq (some a) none = false

unfoldable pub key_eq : Key → Key → Bool
unfolding category_eq
key_eq a b =
    text_eq a.currency b.currency
    && (type_eq a.transaction_type b.transaction_type
        && category_eq a.category_name b.category_name)

module _ ⦃p : Python⦄ where
  unfoldable pub new_group : TransactionFact → Result ReportSummaryLine
  new_group f = do
    nothing ← zero (text f.amount.currency)
    total ← add nothing f.amount
    ok (record {
      currency = f.amount.currency;
      transaction_type = f.transaction_type;
      category_name = f.category_name;
      total = total;
      count = 1;
    })

  unfoldable pub extended : ReportSummaryLine → TransactionFact → Result ReportSummaryLine
  extended l f = do
    total ← add l.total f.amount
    ok (record l { total = total; count = l.count + 1 })

  -- One turn of the loop over `own`: the entry of the key, or a new one at the end.
  unfoldable pub add_fact :
      TransactionFact → List ReportSummaryLine → Result (List ReportSummaryLine)
  add_fact f [] = do l ← new_group f; ok (l ∷ [])
  add_fact f (l ∷ groups) = elim (key_eq (summary_key l) (fact_key f)) [
    | true ↦ extended l f >>= λ k. ok (k ∷ groups)
    | false ↦ add_fact f groups >>= λ rest. ok (l ∷ rest)
  ]

  unfoldable pub group_facts :
      List TransactionFact → List ReportSummaryLine → Result (List ReportSummaryLine)
  group_facts [] groups = ok groups
  group_facts (f ∷ own) groups = do next ← add_fact f groups; group_facts own next

  -- `MonthlyReport.build`; both sorts are stable.
  unfoldable pub build : Period → List TransactionFact → Result MonthlyReport
  unfolding line_ltb summary_ltb
  build q facts = do
    let own = keep (λ f. period_eq (period_of f.occurred_on) q) facts
    groups ← group_facts own []
    ok (record {
      period = q;
      lines = order_by line_ltb (map line_of own);
      summary = order_by summary_ltb groups;
    })
