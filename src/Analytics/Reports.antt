-- ===== src/Analytics/Reports.antt =====
-- `ReportService` (services/analytics-service/services.py) on the table `monthly_report` of models.py
-- and the queue of the tasks. Instants are microseconds. A row that another task has locked is skipped.
pub mod Valid
pub mod Generated
mod Tests
use finty.Base.{
  ⊤, ℕ, ◌+◌, ◌*◌, Bool, true, false, not, ◌&&◌, Option, none, some, List, [], ◌∷◌, ◌++◌, ltb, leb,
  ◌==◌, if◌then◌else◌, keep, length,
}
use finty.Base.Table.{Row, lookup, update}
use finty.Base.Text.{Text}
use finty.Shared.Errors.{
  domain, report_not_found, report_not_ready, value_error, data_error, transient_error, Error,
  Result, ok, err, ◌>>=◌,
}
use finty.Shared.Python.{Python}
use finty.Shared.Currency.{text}
use finty.Analytics.Projector as Projector
use finty.Analytics.Period.{Period, Digits, parse, print}
use finty.Analytics.Facts.{TransactionFact, Calendar, load_facts}
use finty.Analytics.Report.{
  ReportStatus, pending, ready, failed, MonthlyReport, report_language, can_generate, build,
}

pub record MonthlyReportRecord : Type 0 where
  pub id : ℕ
  pub user_id : ℕ
  pub period : Text
  pub language : Text
  pub status : ReportStatus
  pub content : Option Text
  pub media_type : Option Text
  pub filename : Option Text
  pub failure : Option Text
  pub created_at : ℕ
  pub completed_at : Option ℕ

instance abbrev pub report_row : Row MonthlyReportRecord
report_row = record { key = λ r. r.id }

-- The table, and the identifiers that the queue was given, the newest last.
pub record Reports : Type 0 where
  pub records : List MonthlyReportRecord
  pub queued : List ℕ

-- What a renderer does: it returns the file, fails in a way that passes, or raises with a text.
pub data Rendering : Type 0 where
  rendered : Text → Rendering
  transient : Rendering
  broken : Text → Rendering

-- The renderer, and what the code asks of it and of an exception.
pub record Renderer : Type 0 where
  pub render : MonthlyReport → Text → Rendering
  pub media_type : Text
  pub filename : Text → Text → Text
  pub describe : Error → Text

-- The queue: none, or whether the broker takes an identifier.
abbrev pub Queue : Type 0
Queue = Option (ℕ → Bool)

-- `_enqueue`
unfoldable pub enqueue : Queue → ℕ → Reports → Bool × Reports
enqueue none id db = (false, db)
enqueue (some takes) id db =
    if takes id then (true, record db { queued = db.queued ++ (id ∷ []) }) else (false, db)

unfoldable pub take_text : ℕ → Text → Text
take_text ℕ.zero s = []
take_text (ℕ.suc n) [] = []
take_text (ℕ.suc n) (c ∷ s) = c ∷ take_text n s

abbrev pub failure_detail_length : ℕ
failure_detail_length = 200

abbrev pub microseconds : ℕ
microseconds = 1000000

abbrev pub seconds_per_day : ℕ
seconds_per_day = 86400

module _ ⦃p : Python⦄ where
  abbrev pub new_record : ℕ → ℕ → ℕ → Period → Option Text → MonthlyReportRecord
  new_record now id user q language = record {
    id = id;
    user_id = user;
    period = print q;
    language = report_language language;
    status = pending;
    content = none;
    media_type = none;
    filename = none;
    failure = none;
    created_at = now;
    completed_at = none;
  }

  -- `request`, with the identifier that `uuid4` gives.
  unfoldable pub request :
      Queue → ℕ → ℕ → ℕ → Period → Option Text → Reports → MonthlyReportRecord × Reports
  request queue now id user q language db =
      let r = new_record now id user q language in
      (r, (enqueue queue id (record db { records = db.records ++ (r ∷ []) })).1)

-- `get`: another user's report is as missing.
unfoldable pub owned : ℕ → Option MonthlyReportRecord → Result MonthlyReportRecord
owned user none = err (domain report_not_found)
owned user (some r) = if r.user_id == user then ok r else err (domain report_not_found)

unfoldable pub get : ℕ → ℕ → Reports → Result MonthlyReportRecord
get user id db = owned user (lookup id db.records)

unfoldable pub ready_record : ReportStatus → MonthlyReportRecord → Result MonthlyReportRecord
ready_record ready r = ok r
ready_record pending r = err (domain report_not_ready)
ready_record failed r = err (domain report_not_ready)

unfoldable pub download : ℕ → ℕ → Reports → Result MonthlyReportRecord
download user id db = get user id db >>= λ r. ready_record r.status r

abbrev pub failed_record : ℕ → Text → MonthlyReportRecord → MonthlyReportRecord
failed_record now why r = record r {
  status = failed;
  failure = some (take_text failure_detail_length why);
  completed_at = some now;
}

abbrev pub ready_with : Renderer → ℕ → Text → MonthlyReportRecord → MonthlyReportRecord
ready_with renderer now file r = record r {
  content = some file;
  media_type = some renderer.media_type;
  filename = some (renderer.filename r.period r.language);
  status = ready;
  completed_at = some now;
}

-- The `try` of `generate`, from what `MonthlyReport.build` does; the result is the row afterwards.
unfoldable pub after_render :
    Renderer → ℕ → MonthlyReportRecord → Rendering → Result MonthlyReportRecord
after_render renderer now r transient = err transient_error
after_render renderer now r (broken why) = ok (failed_record now why r)
after_render renderer now r (rendered file) = ok (ready_with renderer now file r)

unfoldable pub after_build :
    Renderer → ℕ → MonthlyReportRecord → Result MonthlyReport → Result MonthlyReportRecord
after_build renderer now r (err e) = ok (failed_record now (renderer.describe e) r)
after_build renderer now r (ok report) =
    after_render renderer now r (renderer.render report r.language)

abbrev pub store_report : MonthlyReportRecord → Reports → Reports
store_report r db = record db { records = update r.id (λ _. r) db.records }

abbrev pub fits : ℕ → Option Text → Bool
fits n none = true
fits n (some s) = leb (length s) n

abbrev pub media_type_length : ℕ
media_type_length = 60

abbrev pub filename_length : ℕ
filename_length = 80

-- What the columns `media_type` and `filename` hold.
abbrev pub fits_columns : MonthlyReportRecord → Bool
fits_columns r = fits media_type_length r.media_type && fits filename_length r.filename

-- The end of a block: it commits the row, or nothing where it raised. A text that is too long for its
-- column raises as it is committed.
unfoldable pub committed :
    Result MonthlyReportRecord → Reports → Result (Option ReportStatus) × Reports
committed (err e) db = (err e, db)
committed (ok r) db =
    if fits_columns r then (ok (some r.status), store_report r db) else (err data_error, db)

module _ ⦃p : Python⦄ ⦃d : Digits⦄ ⦃c : Calendar⦄ where
  -- The body of `generate` on a pending row.
  unfoldable pub generate_pending :
      Renderer
      → ℕ
      → List Projector.TransactionFact
      → MonthlyReportRecord
      → Result MonthlyReportRecord
  generate_pending renderer now rows r = do
    q ← parse (text r.period)
    facts ← load_facts rows r.user_id q q
    after_build renderer now r (build q facts)

  unfoldable pub generate_found :
      Renderer
      → ℕ
      → List Projector.TransactionFact
      → Option MonthlyReportRecord
      → Reports
      → Result (Option ReportStatus) × Reports
  generate_found renderer now rows none db = (ok none, db)
  generate_found renderer now rows (some r) db =
      if can_generate r.status
      then committed (generate_pending renderer now rows r) db
      else (ok (some r.status), db)

  -- `SELECT ... FOR UPDATE SKIP LOCKED`
  abbrev pub unlocked : Bool → Option MonthlyReportRecord → Option MonthlyReportRecord
  unlocked locked found = if locked then none else found

  -- `generate`; `locked` says whether another task holds the row.
  unfoldable pub generate :
      Renderer
      → ℕ
      → List Projector.TransactionFact
      → Bool
      → ℕ
      → Reports
      → Result (Option ReportStatus) × Reports
  generate renderer now rows locked id db =
      generate_found renderer now rows (unlocked locked (lookup id db.records)) db

abbrev pub is_stale : ℕ → ℕ → MonthlyReportRecord → Bool
is_stale now seconds r = can_generate r.status && ltb (r.created_at + seconds * microseconds) now

-- The loop of `requeue_stale` over the rows that were found: how many the queue took.
unfoldable pub enqueue_all : Queue → List MonthlyReportRecord → Reports → ℕ × Reports
enqueue_all queue [] db = (0, db)
enqueue_all queue (r ∷ rs) db =
    let (taken, next) = enqueue queue r.id db in
    let (n, last) = enqueue_all queue rs next in ((if taken then 1 else 0) + n, last)

-- `requeue_stale`
unfoldable pub requeue_stale : Queue → ℕ → ℕ → Reports → Result ℕ × Reports
requeue_stale queue seconds now db =
    if ltb seconds 1
    then (err value_error, db)
    else (let (n, after) = enqueue_all queue (keep (is_stale now seconds) db.records) db in
        (ok n, after))

abbrev pub is_expired : ℕ → ℕ → MonthlyReportRecord → Bool
is_expired now days r = ltb (r.created_at + days * seconds_per_day * microseconds) now

-- `purge_expired`
unfoldable pub purge_expired : ℕ → ℕ → Reports → Result ℕ × Reports
purge_expired days now db = if ltb days 1 then (err value_error, db) else (
  ok (length (keep (is_expired now days) db.records)),
  record db { records = keep (λ r. not (is_expired now days r)) db.records },
)
