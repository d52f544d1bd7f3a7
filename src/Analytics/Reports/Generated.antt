-- ===== src/Analytics/Reports/Generated.antt =====
-- What `generate` leaves of a report, who can read it, and the month that it never finishes.
use finty.Base.{
  ℕ, ◌≡◌, refl, ◌∙◌, ap, length, ◌≤◌, ◌⊎◌, inl, inr, Bool, true, false, Option, none, some, List,
  arith, Bool-cases, ◌==◌, ==_refl, ◌↔◌, ==_iff,
}
use finty.Base.Table.{lookup, key-lookup, lookup-replace}
use finty.Base.Text.{Text}
use finty.Shared.Errors.{
  domain, invalid_period, ok, err, ◌>>=◌, >>=-eq-ok, ok-injective, Result-cases, Error,
}
use finty.Shared.Python.{Python}
use finty.Shared.Currency.{text}
use finty.Analytics.Projector as Projector
use finty.Analytics.Period.{Period, Digits, parse, print, shift, end, period}
use finty.Base.Int.{floor_div, floor_mod, ◌+ℤ◌}
use finty.Analytics.Period.Printed.{parse-print}
use finty.Analytics.Facts.{TransactionFact, Calendar, load_facts}
use finty.Analytics.Report.{
  ReportStatus, pending, ready, failed, MonthlyReport, build, can_generate,
}
use finty.Analytics.Report.Totals.{IsReport, build-IsReport}
use finty.Analytics.Reports.{
  MonthlyReportRecord, report_row, Reports, Renderer, Rendering, rendered, transient, broken,
  failed_record, ready_with, after_render, after_build, store_report, committed, generate_pending,
  generate_found, generate, fits_columns, media_type_length, filename_length, get, owned, download,
  ready_record,
}

-- A row and what it became: ready, with the file that the renderer made of the report of the facts of
-- its user and month; or failed, where there is no report of them, or where the renderer raises, with
-- the text of what was raised.
pub data IsFinished ⦃p : Python⦄ (renderer : Renderer) (now : ℕ) (facts : List TransactionFact)
    (q : Period) (r made : MonthlyReportRecord) : Type 0 where
  with_file :
      (report : MonthlyReport) (file : Text)
      → build q facts ≡ ok report
      → IsReport q facts report
      → renderer.render report r.language ≡ rendered file
      → made ≡ ready_with renderer now file r
      → IsFinished renderer now facts q r made
  not_rendered :
      (report : MonthlyReport) (why : Text)
      → build q facts ≡ ok report
      → renderer.render report r.language ≡ broken why
      → made ≡ failed_record now why r
      → IsFinished renderer now facts q r made
  not_built :
      (e : Error)
      → build q facts ≡ err e
      → made ≡ failed_record now (renderer.describe e) r
      → IsFinished renderer now facts q r made

-- The type and the file name of the renderer for a row fit their columns.
abbrev pub IsFitting : Renderer → MonthlyReportRecord → Type 0
IsFitting renderer r =
    (length renderer.media_type ≤ media_type_length)
    × (length (renderer.filename r.period r.language) ≤ filename_length)

-- The renderer does not fail in a way that passes.
abbrev pub IsSteady : Renderer → Type 0
IsSteady renderer =
    (report : MonthlyReport) (language : Text) → renderer.render report language ≡ transient → ⊥

Rendering-cases :
    (x : Rendering)
    → (x ≡ transient) ⊎ (((why : Text) × (x ≡ broken why)) ⊎ ((file : Text) × (x ≡ rendered file)))
Rendering-cases transient = inl refl
Rendering-cases (broken why) = inr (inl (why, refl))
Rendering-cases (rendered file) = inr (inr (file, refl))

after_build-IsFinished :
    ⦃p : Python⦄ (renderer : Renderer) (now : ℕ) (facts : List TransactionFact) (q : Period)
    (r : MonthlyReportRecord)
    → IsSteady renderer
    → (made : MonthlyReportRecord) × (after_build renderer now r (build q facts) ≡ ok made)
      × IsFinished renderer now facts q r made
unfolding after_build after_render
after_build-IsFinished renderer now facts q r steady = elim (Result-cases (build q facts)) [
  | inr (e, raised) ↦
      (failed_record now (renderer.describe e) r, rw raised refl, not_built e raised refl)
  | inl (report, built) ↦ elim (Rendering-cases (renderer.render report r.language)) [
    | inl passing ↦ absurd (steady report r.language passing)
    | inr (inl (why, e)) ↦
        (failed_record now why r, rw (built, e) refl, not_rendered report why built e refl)
    | inr (inr (file, e)) ↦ (
      ready_with renderer now file r,
      rw (built, e) refl,
      with_file report file built (build-IsReport q facts built) e refl,
    )
  ]
]

-- The endings are final, and keep the identifier.
IsFinished-final :
    ⦃p : Python⦄ {renderer : Renderer} {now : ℕ} {facts : List TransactionFact} {q : Period}
    {r made : MonthlyReportRecord}
    → IsFinished renderer now facts q r made
    → (made.id ≡ r.id) × (can_generate made.status ≡ false)
IsFinished-final (with_file report file built is drawn e) = rw e (refl, refl)
IsFinished-final (not_rendered report why built drawn e) = rw e (refl, refl)
IsFinished-final (not_built x raised e) = rw e (refl, refl)

-- A pending row has no type and no file name, so that where the renderer's fit, so does the outcome.
finished-fits :
    ⦃p : Python⦄ {renderer : Renderer} {now : ℕ} {facts : List TransactionFact} {q : Period}
    {r made : MonthlyReportRecord}
    → IsFitting renderer r
    → fits_columns r ≡ true
    → IsFinished renderer now facts q r made
    → fits_columns made ≡ true
finished-fits (a, b) h (with_file report file built is drawn e) = rw e (ground arith)
finished-fits (a, b) h (not_rendered report why built drawn e) = rw e h
finished-fits (a, b) h (not_built x raised e) = rw e h

module _ ⦃p : Python⦄ ⦃d : Digits⦄ ⦃c : Calendar⦄ where
  generate-pending :
      (renderer : Renderer) (now : ℕ) (rows : List Projector.TransactionFact) (id : ℕ)
      (db : Reports) (r : MonthlyReportRecord)
      → lookup id db.records ≡ some r
      → can_generate r.status ≡ true
      → generate renderer now rows false id db ≡ committed (generate_pending renderer now rows r) db
  unfolding generate generate_found
  generate-pending renderer now rows id db r found waits = rw (found, waits) refl

  generate-final :
      (renderer : Renderer) (now : ℕ) (rows : List Projector.TransactionFact) (locked : Bool)
      (id : ℕ) (db : Reports) (r : MonthlyReportRecord)
      → lookup id db.records ≡ some r
      → can_generate r.status ≡ false
      → (generate renderer now rows locked id db).1 ≡ db
  unfolding generate generate_found
  generate-final renderer now rows true id db r found done = refl
  generate-final renderer now rows false id db r found done = rw (found, done) refl

  generate_pending-IsFinished :
      (renderer : Renderer) (now : ℕ) (rows : List Projector.TransactionFact)
      (r : MonthlyReportRecord) (q : Period) (facts : List TransactionFact)
      → IsSteady renderer
      → parse (text r.period) ≡ ok q
      → load_facts rows r.user_id q q ≡ ok facts
      → (made : MonthlyReportRecord) × (generate_pending renderer now rows r ≡ ok made)
        × IsFinished renderer now facts q r made
  unfolding generate_pending ◌>>=◌
  generate_pending-IsFinished renderer now rows r q facts steady parsed loaded =
      rw (parsed, loaded) (after_build-IsFinished renderer now facts q r steady)

  lookup-store :
      (id : ℕ) (db : Reports) (r made : MonthlyReportRecord)
      → lookup id db.records ≡ some r
      → made.id ≡ r.id
      → lookup id (store_report made db).records ≡ some made
  lookup-store id db r made found same =
      let key : made.id ≡ id = same ∙ key-lookup id db.records r found in
      lookup-replace id made.id made db.records refl ∙ rw (key, found, ==_refl id) refl

  -- A pending report that no other task holds, whose month is read and whose facts are loaded, is
  -- finished by one generation, with a renderer that does not fail in a way that passes and whose
  -- type and file name fit their columns, as those of the row do: it becomes ready with the file
  -- of the report of these facts; where there is no report of them, or the renderer raises, and
  -- only there, it becomes failed with the text of what was raised, cut to 200 characters. A
  -- further generation, with any renderer and read model, changes nothing.
  pub generate-finishes :
      (renderer : Renderer) (now : ℕ) (rows : List Projector.TransactionFact) (id : ℕ)
      (db : Reports) (r : MonthlyReportRecord) (q : Period) (facts : List TransactionFact)
      → IsSteady renderer
      → IsFitting renderer r
      → fits_columns r ≡ true
      → lookup id db.records ≡ some r
      → can_generate r.status ≡ true
      → parse (text r.period) ≡ ok q
      → load_facts rows r.user_id q q ≡ ok facts
      → (made : MonthlyReportRecord) × (generate renderer now rows false id db
          ≡ (ok (some made.status), store_report made db))
        × IsFinished renderer now facts q r made
        × ((other : Renderer) (later : ℕ) (rows' : List Projector.TransactionFact) (locked : Bool)
            → (generate other later rows' locked id (store_report made db)).1
              ≡ store_report made db)
  unfolding committed
  generate-finishes renderer now rows id db r q facts steady fitting fit found waits parsed loaded =
      let (made, e, finished) =
        generate_pending-IsFinished renderer now rows r q facts steady parsed loaded in
      let (same, final) = IsFinished-final finished in
      (
        made,
        generate-pending renderer now rows id db r found waits
            ∙ ap (λ x. committed x db) e
            ∙ rw (finished-fits fitting fit finished) refl,
        finished,
        λ other later rows' locked.
            generate-final other later rows' locked id (store_report made db) made
              (lookup-store id db r made found same) final,
      )

abbrev pub last_month : Period
last_month = record { year = 9999; month = 12 }

end-last_month : end last_month ≡ err (domain invalid_period)
unfolding end shift period floor_div floor_mod ◌+ℤ◌ ◌>>=◌
end-last_month = refl

module _ ⦃p : Python⦄ ⦃d : Digits⦄ ⦃c : Calendar⦄ where
  -- A pending report of December 9999, which the service takes, is never finished: a generation
  -- raises the error of periods and leaves it pending, whatever the facts and the renderer.
  pub generate-last_month :
      (renderer : Renderer) (now : ℕ) (rows : List Projector.TransactionFact) (id : ℕ)
      (db : Reports) (r : MonthlyReportRecord)
      → lookup id db.records ≡ some r
      → can_generate r.status ≡ true
      → r.period ≡ print last_month
      → generate renderer now rows false id db ≡ (err (domain invalid_period), db)
  unfolding committed generate_pending load_facts ◌>>=◌
  generate-last_month renderer now rows id db r found waits month =
      let read : parse (text r.period) ≡ ok last_month =
        rw month (parse-print last_month (omega arith)) in
      generate-pending renderer now rows id db r found waits ∙ rw (read, end-last_month) refl

ready_record-ok :
    (s : ReportStatus) (a r : MonthlyReportRecord) → ready_record s a ≡ ok r → (a ≡ r) × (s ≡ ready)
unfolding ready_record
ready_record-ok ready a r e = (ok-injective e, refl)
ready_record-ok pending a r e = cc
ready_record-ok failed a r e = cc

owned-ok :
    (user : ℕ) (found : Option MonthlyReportRecord) (r : MonthlyReportRecord)
    → owned user found ≡ ok r
    → (found ≡ some r) × (r.user_id ≡ user)
unfolding owned
owned-ok user none r e = cc
owned-ok user (some a) r e = elim (Bool-cases (a.user_id == user)) [
  | inl y ↦
      let same : a ≡ r = ok-injective (rw y at e) in
      (ap some same, rw (← same) ((==_iff a.user_id user).0 y))
  | inr n ↦ absurd (cc (rw n at e))
]

download-ok :
    (user id : ℕ) (db : Reports) (r : MonthlyReportRecord)
    → download user id db ≡ ok r
    → (lookup id db.records ≡ some r) × (r.user_id ≡ user) × (r.status ≡ ready)
unfolding download get
download-ok user id db r e =
    let (a, had, e₁) = >>=-eq-ok _ _ e in
    let (found, own) = owned-ok user (lookup id db.records) a had in
    let (same, finished) = ready_record-ok a.status a r e₁ in rw (← same) (found, own, finished)

download-of_ready :
    (user id : ℕ) (db : Reports) (r : MonthlyReportRecord)
    → lookup id db.records ≡ some r
    → r.user_id ≡ user
    → r.status ≡ ready
    → download user id db ≡ ok r
unfolding download get owned ready_record ◌>>=◌
download-of_ready user id db r found own finished =
    rw found (rw ((==_iff r.user_id user).1 own) (ap (λ s. ready_record s r) finished))

-- A user gets the file of a report exactly where it is there, is theirs and is ready.
pub download_iff :
    (user id : ℕ) (db : Reports) (r : MonthlyReportRecord)
    → (download user id db ≡ ok r)
      ↔ ((lookup id db.records ≡ some r) × (r.user_id ≡ user) × (r.status ≡ ready))
download_iff user id db r =
    (download-ok user id db r, λ h. download-of_ready user id db r h.0 h.1 h.2)
