-- ===== src/Analytics/Reports/Tests.antt =====
-- The theorems on reports at concrete tables.
use finty.Base.{ℕ, ◌≡◌, refl, ◌↔◌, Bool, true, false, none, some, List, [], ◌∷◌, arith}
use finty.Base.Int.{pos, ◌+ℤ◌, floor_div, floor_mod}
use finty.Base.Table.{lookup}
use finty.Base.Text.{codes, strip, text_eq}
use finty.Shared.Errors.{domain, invalid_period, ok, err, ◌>>=◌, ◌>>◌}
use finty.Shared.Python.{Python, upper}
use finty.Shared.Currency.{validate_currency_code}
use finty.Shared.Decimal.{coerce_amount, quantize, to_cents, round_half_up, with_sign}
use finty.Shared.Money.{money, zero, add, require_same_currency}
use finty.Finance.ValueObjects.{expense}
use finty.Analytics.Projector as Projector
use finty.Analytics.Period.{Period, Digits, print, end, shift, period}
use finty.Analytics.Period.Printed.{parse-print}
use finty.Analytics.Facts.{TransactionFact, Calendar, load_facts, facts_of, fact_of}
use finty.Analytics.Report.{
  pending, ready, MonthlyReport, line_of, key_eq, new_group, extended, add_fact, group_facts, build,
}
use finty.Analytics.Report.Totals.{IsReport, build-IsReport}
use finty.Analytics.Reports.{
  MonthlyReportRecord, report_row, Reports, Renderer, rendered, generate, store_report, download,
}
use finty.Analytics.Reports.Valid.{Call, IsValid, run, run-IsValid}
use finty.Analytics.Reports.Generated.{
  IsFinished, generate-finishes, generate-last_month, last_month, download_iff,
}

instance abbrev python : Python
python = record { upper_other = λ c. []; lower_other = λ c. c ∷ []; read_decimal = λ s. none }

instance abbrev ascii_digits : Digits
ascii_digits = record { digit_other = λ c. none }

instance abbrev first_days : Calendar
first_days = record { date_of = λ n. record { year = 2026; month = 1; day = n } }

abbrev january : Period
january = record { year = 2026; month = 1 }

abbrev an_amount : ℕ → Projector.TransactionSnapshot
an_amount n = record {
  user_id = 7;
  transaction_id = n;
  account_id = 1;
  amount = record { amount = pos n; currency = codes "USD" };
  transaction_type = expense;
  category_name = none;
  categorization_source = none;
  occurred_on = 3;
  description = codes "bus";
}

abbrev a_row : ℕ → Projector.TransactionFact
a_row n = record { columns = an_amount n; deleted_at = none; last_event_at = 1 }

abbrev a_fact : ℕ → TransactionFact
a_fact n = record {
  transaction_id = n;
  account_id = 1;
  amount = record { amount = pos n; currency = codes "USD" };
  transaction_type = expense;
  category_name = none;
  description = codes "bus";
  occurred_on = record { year = 2026; month = 1; day = 3 };
}

abbrev two_rows : List Projector.TransactionFact
two_rows = a_row 5 ∷ a_row 7 ∷ []

abbrev two_facts : List TransactionFact
two_facts = a_fact 5 ∷ a_fact 7 ∷ []

loaded : load_facts two_rows 7 january january ≡ ok two_facts
unfolding load_facts end shift period floor_div floor_mod ◌+ℤ◌ facts_of fact_of money coerce_amount
    quantize to_cents round_half_up with_sign validate_currency_code upper strip ◌>>=◌
loaded = refl

abbrev january_report : MonthlyReport
january_report = record {
  period = january;
  lines = line_of (a_fact 5) ∷ line_of (a_fact 7) ∷ [];
  summary =
      record {
        currency = codes "USD";
        transaction_type = expense;
        category_name = none;
        total = record { amount = pos 12; currency = codes "USD" };
        count = 2;
      }
      ∷ [];
}

built : build january two_facts ≡ ok january_report
unfolding build group_facts add_fact new_group extended key_eq zero add require_same_currency ◌>>◌
    ◌+ℤ◌ text_eq money coerce_amount quantize to_cents round_half_up with_sign
    validate_currency_code upper strip ◌>>=◌
built = refl

summed_example : IsReport january two_facts january_report
summed_example = build-IsReport january two_facts built

abbrev plain : Renderer
plain = record {
  render = λ report language. rendered language;
  media_type = codes "text/csv";
  filename = λ month language. month;
  describe = λ e. [];
}

abbrev asked : Period → MonthlyReportRecord
asked month = record {
  id = 9;
  user_id = 7;
  period = print month;
  language = codes "es";
  status = pending;
  content = none;
  media_type = none;
  filename = none;
  failure = none;
  created_at = 100;
  completed_at = none;
}

abbrev one_asked : Period → Reports
one_asked month = record { records = asked month ∷ []; queued = [] }

finishes_example :
    (made : MonthlyReportRecord) × (generate plain 200 two_rows false 9 (one_asked january)
      ≡ (ok (some made.status), store_report made (one_asked january)))
    × IsFinished plain 200 two_facts january (asked january) made
    × ((other : Renderer) (later : ℕ) (rows' : List Projector.TransactionFact) (locked : Bool)
        → (generate other later rows' locked 9 (store_report made (one_asked january))).1
          ≡ store_report made (one_asked january))
unfolding print
finishes_example =
    generate-finishes plain 200 two_rows 9 (one_asked january) (asked january) january two_facts
      (λ report language e. cc) (omega arith, omega arith) refl refl refl
      (parse-print january (omega arith)) loaded

stuck_example :
    generate plain 200 two_rows false 9 (one_asked last_month)
    ≡ (err (domain invalid_period), one_asked last_month)
stuck_example =
    generate-last_month plain 200 two_rows 9 (one_asked last_month) (asked last_month) refl refl
      refl

abbrev finished : MonthlyReportRecord
finished = record (asked january) { status = ready; content = some []; completed_at = some 150 }

download_example :
    (download 7 9 (record { records = finished ∷ []; queued = [] }) ≡ ok finished) ↔ (
      (lookup 9 (finished ∷ []) ≡ some finished)
      × (finished.user_id ≡ 7)
      × (finished.status ≡ ready))
download_example = download_iff 7 9 (record { records = finished ∷ []; queued = [] }) finished

abbrev some_calls : List Call
some_calls =
    Call.request (some (λ n. true)) 100 9 7 january none
    ∷ Call.requeue_stale none 60 300000000
    ∷ Call.generate plain 400 two_rows false 9
    ∷ Call.purge_expired 7 500
    ∷ []

run_example : IsValid (run some_calls (record { records = []; queued = [] }))
run_example = run-IsValid some_calls []
