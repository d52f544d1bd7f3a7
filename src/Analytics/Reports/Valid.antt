-- ===== src/Analytics/Reports/Valid.antt =====
-- The table of reports under the calls of `ReportService`.
use finty.Base.{
  ℕ, ◌≡◌, refl, ◌∙◌, inl, inr, Bool, true, false, not, Option, none, some, List, [], ◌∷◌, ◌++◌,
  arith, keep, Bool-cases, Option-cases, All, All-append, All-keep, subst, ltb, ◌==◌,
}
use finty.Base.Table.{lookup, update, IsKeyed, append-IsKeyed, replace-IsKeyed, keep-IsKeyed}
use finty.Base.Text.{Text}
use finty.Shared.Errors.{Result, ok, err, >>=-eq-ok, ok-injective}
use finty.Shared.Python.{Python}
use finty.Analytics.Projector as Projector
use finty.Analytics.Period.{Period, Digits}
use finty.Analytics.Facts.{Calendar}
use finty.Analytics.Report.{
  ReportStatus, pending, ready, failed, MonthlyReport, build, can_generate,
}
use finty.Analytics.Reports as Reports
use finty.Analytics.Reports.{
  MonthlyReportRecord, report_row, Reports, Renderer, Rendering, rendered, transient, broken, Queue,
  enqueue, new_record, failed_record, ready_with, after_render, after_build, store_report,
  committed, fits_columns, generate_pending, generate_found, unlocked, enqueue_all, is_stale,
  is_expired,
}

some-injective {ℓ} : {A : Type ℓ} {a b : A} → some a ≡ some b → a ≡ b
some-injective e = cc

abbrev pub IsSome {ℓ} : {A : Type ℓ} → Option A → Type 0
IsSome none = ⊥
IsSome (some _) = Unit

abbrev pub IsNone {ℓ} : {A : Type ℓ} → Option A → Type 0
IsNone none = Unit
IsNone (some _) = ⊥

-- What the columns of a row say of its status.
abbrev pub Agrees : ReportStatus → MonthlyReportRecord → Type 0
Agrees pending r =
    IsNone r.content
    × IsNone r.media_type
    × IsNone r.filename
    × IsNone r.failure
    × IsNone r.completed_at
Agrees ready r =
    IsSome r.content
    × IsSome r.media_type
    × IsSome r.filename
    × IsNone r.failure
    × IsSome r.completed_at
Agrees failed r = IsNone r.content × IsSome r.failure × IsSome r.completed_at

abbrev pub IsConsistent : MonthlyReportRecord → Type 0
IsConsistent r = Agrees r.status r

pub record IsValid (db : Reports) : Type 0 where
  pub keyed : IsKeyed db.records
  pub consistent : All IsConsistent db.records

-- A call of the service: its arguments, and what the clock, the queue, the renderer, the read model
-- and the other tasks are at that time.
pub data Call : Type 0 where
  request : Queue → ℕ → ℕ → ℕ → Period → Option Text → Call
  generate : Renderer → ℕ → List Projector.TransactionFact → Bool → ℕ → Call
  requeue_stale : Queue → ℕ → ℕ → Call
  purge_expired : ℕ → ℕ → Call

module _ ⦃p : Python⦄ ⦃d : Digits⦄ ⦃c : Calendar⦄ where
  -- The tables after a call, whether it returned or raised. A new identifier is not in use.
  pub perform : Call → Reports → Reports
  perform (request queue now id user q language) db = elim (lookup id db.records) [
    | none ↦ (Reports.request queue now id user q language db).1
    | some _ ↦ db
  ]
  perform (generate renderer now rows locked id) db =
      (Reports.generate renderer now rows locked id db).1
  perform (requeue_stale queue seconds now) db = (Reports.requeue_stale queue seconds now db).1
  perform (purge_expired days now) db = (Reports.purge_expired days now db).1

  pub run : List Call → Reports → Reports
  run [] db = db
  run (x ∷ xs) db = run xs (perform x db)

enqueue-records :
    (queue : Queue) (id : ℕ) (db : Reports) → (enqueue queue id db).1.records ≡ db.records
unfolding enqueue
enqueue-records none id db = refl
enqueue-records (some takes) id db = ground arith

enqueue_all-records :
    (queue : Queue) (rs : List MonthlyReportRecord) (db : Reports)
    → (enqueue_all queue rs db).1.records ≡ db.records
unfolding enqueue_all
enqueue_all-records queue [] db = refl
enqueue_all-records queue (r ∷ rs) db =
    enqueue_all-records queue rs (enqueue queue r.id db).1 ∙ enqueue-records queue r.id db

-- The row after a generation that returned.
record IsMade (r : MonthlyReportRecord) (made : MonthlyReportRecord) : Type 0 where
  pub same_id : made.id ≡ r.id
  pub consistent : IsConsistent made
  pub final : can_generate made.status ≡ false

after_render-IsMade :
    (renderer : Renderer) (now : ℕ) (r : MonthlyReportRecord) (x : Rendering)
    {made : MonthlyReportRecord}
    → Agrees pending r
    → after_render renderer now r x ≡ ok made
    → IsMade r made
unfolding after_render
after_render-IsMade renderer now r transient h e = cc
after_render-IsMade renderer now r (broken why) (a, b, c, d, f) e =
    rw (← ok-injective e) (record { same_id = refl; consistent = (a, tt, tt); final = refl })
after_render-IsMade renderer now r (rendered file) (a, b, c, d, f) e =
    rw (← ok-injective e)
      (record { same_id = refl; consistent = (tt, tt, tt, d, tt); final = refl })

after_build-IsMade :
    (renderer : Renderer) (now : ℕ) (r : MonthlyReportRecord) (b : Result MonthlyReport)
    {made : MonthlyReportRecord}
    → Agrees pending r
    → after_build renderer now r b ≡ ok made
    → IsMade r made
unfolding after_build
after_build-IsMade renderer now r (err x) (a, b, c, d, f) e =
    rw (← ok-injective e) (record { same_id = refl; consistent = (a, tt, tt); final = refl })
after_build-IsMade renderer now r (ok report) h e =
    after_render-IsMade renderer now r (renderer.render report r.language) h e

All-replace :
    (k : ℕ) (b : MonthlyReportRecord) (m : List MonthlyReportRecord)
    → IsConsistent b
    → All IsConsistent m
    → All IsConsistent (update k (λ _. b) m)
All-replace k b [] h _ = tt
All-replace k b (a ∷ m) h (here, rest) = elim (Bool-cases (a.id == k)) [
  | inl y ↦ rw y (h, All-replace k b m h rest)
  | inr n ↦ rw n (here, All-replace k b m h rest)
]

lookup-All :
    (k : ℕ) (m : List MonthlyReportRecord) {r : MonthlyReportRecord}
    → All IsConsistent m
    → lookup k m ≡ some r
    → IsConsistent r
lookup-All k [] h e = cc
lookup-All k (a ∷ m) (here, rest) e = elim (Bool-cases (a.id == k)) [
  | inl y ↦ subst IsConsistent (some-injective (rw y at e)) here
  | inr n ↦ lookup-All k m rest (rw n at e)
]

store-IsValid :
    (r made : MonthlyReportRecord) (db : Reports)
    → IsMade r made
    → IsValid db
    → IsValid (store_report made db)
store-IsValid r made db h v = record {
  keyed = replace-IsKeyed made.id made db.records refl v.keyed;
  consistent = All-replace made.id made db.records h.consistent v.consistent;
}

status-Agrees :
    (s : ReportStatus) (r : MonthlyReportRecord)
    → can_generate s ≡ true
    → Agrees s r
    → Agrees pending r
status-Agrees pending r e h = h
status-Agrees ready r e h = cc
status-Agrees failed r e h = cc

pending-Agrees :
    (r : MonthlyReportRecord) → can_generate r.status ≡ true → IsConsistent r → Agrees pending r
pending-Agrees r e h = status-Agrees r.status r e h

committed-IsValid :
    (r : MonthlyReportRecord) (x : Result MonthlyReportRecord) (db : Reports)
    → ((made : MonthlyReportRecord) → x ≡ ok made → IsMade r made)
    → IsValid db
    → IsValid (committed x db).1
unfolding committed
committed-IsValid r (err e) db h v = v
committed-IsValid r (ok made) db h v = elim (Bool-cases (fits_columns made)) [
  | inl y ↦ rw y (store-IsValid r made db (h made refl) v)
  | inr n ↦ rw n v
]

module _ ⦃p : Python⦄ ⦃d : Digits⦄ ⦃c : Calendar⦄ where
  generate_pending-IsMade :
      (renderer : Renderer) (now : ℕ) (rows : List Projector.TransactionFact)
      (r : MonthlyReportRecord) {made : MonthlyReportRecord}
      → Agrees pending r
      → generate_pending renderer now rows r ≡ ok made
      → IsMade r made
  unfolding generate_pending
  generate_pending-IsMade renderer now rows r h e =
      let (q, parsed, e₁) = >>=-eq-ok _ _ e in
      let (facts, loaded, e₂) = >>=-eq-ok _ _ e₁ in
      after_build-IsMade renderer now r (build q facts) h e₂

  generate_found-IsValid :
      (renderer : Renderer) (now : ℕ) (rows : List Projector.TransactionFact)
      (found : Option MonthlyReportRecord) (db : Reports)
      → ((r : MonthlyReportRecord) → found ≡ some r → IsConsistent r)
      → IsValid db
      → IsValid (generate_found renderer now rows found db).1
  unfolding generate_found
  generate_found-IsValid renderer now rows none db h v = v
  generate_found-IsValid renderer now rows (some r) db h v =
      elim (Bool-cases (can_generate r.status)) [
        | inr n ↦ rw n v
        | inl y ↦ rw y (
            committed-IsValid r (generate_pending renderer now rows r) db
              (λ made e.
                generate_pending-IsMade renderer now rows r (pending-Agrees r y (h r refl)) e)
              v)
      ]

  unlocked-IsConsistent :
      (locked : Bool) (id : ℕ) (db : Reports) (r : MonthlyReportRecord)
      → IsValid db
      → unlocked locked (lookup id db.records) ≡ some r
      → IsConsistent r
  unlocked-IsConsistent true id db r v e = cc
  unlocked-IsConsistent false id db r v e = lookup-All id db.records v.consistent e

  request-IsValid :
      (queue : Queue) (now id user : ℕ) (q : Period) (language : Option Text) (db : Reports)
      → lookup id db.records ≡ none
      → IsValid db
      → IsValid (Reports.request queue now id user q language db).1
  unfolding Reports.request
  request-IsValid queue now id user q language db free v =
      let r = new_record now id user q language in
      let added : Reports = record db { records = db.records ++ (r ∷ []) } in
      let same = enqueue-records queue id added in
      record {
        keyed = rw same (append-IsKeyed db.records r v.keyed free);
        consistent =
            rw same
              (All-append IsConsistent db.records (r ∷ []) v.consistent ((tt, tt, tt, tt, tt), tt));
      }

  purge-IsValid :
      (days now : ℕ) (db : Reports) → IsValid db → IsValid (Reports.purge_expired days now db).1
  unfolding Reports.purge_expired
  purge-IsValid days now db v = elim (Bool-cases (ltb days 1)) [
    | inl y ↦ rw y v
    | inr n ↦
        let stays = λ (r : MonthlyReportRecord). not (is_expired now days r) in
        rw n (record {
          keyed = keep-IsKeyed stays db.records v.keyed;
          consistent = All-keep IsConsistent stays db.records v.consistent;
        })
  ]

  requeue-records :
      (queue : Queue) (seconds now : ℕ) (db : Reports)
      → (Reports.requeue_stale queue seconds now db).1.records ≡ db.records
  unfolding Reports.requeue_stale
  requeue-records queue seconds now db = elim (Bool-cases (ltb seconds 1)) [
    | inl y ↦ rw y refl
    | inr n ↦ rw n (enqueue_all-records queue (keep (is_stale now seconds) db.records) db)
  ]

  IsValid-records : (a b : Reports) → a.records ≡ b.records → IsValid b → IsValid a
  IsValid-records a b e v = record { keyed = rw e v.keyed; consistent = rw e v.consistent }

  pub perform-IsValid : (x : Call) (db : Reports) → IsValid db → IsValid (perform x db)
  unfolding perform Reports.generate
  perform-IsValid (request queue now id user q language) db v =
      elim (Option-cases (lookup id db.records)) [
        | inl free ↦ rw (free, perform) (request-IsValid queue now id user q language db free v)
        | inr (r, used) ↦ rw (used, perform) v
      ]
  perform-IsValid (generate renderer now rows locked id) db v =
      generate_found-IsValid renderer now rows (unlocked locked (lookup id db.records)) db
        (λ r e. unlocked-IsConsistent locked id db r v e) v
  perform-IsValid (requeue_stale queue seconds now) db v =
      IsValid-records (Reports.requeue_stale queue seconds now db).1 db
        (requeue-records queue seconds now db) v
  perform-IsValid (purge_expired days now) db v = purge-IsValid days now db v

  runs-IsValid : (xs : List Call) (db : Reports) → IsValid db → IsValid (run xs db)
  unfolding run
  runs-IsValid [] db v = v
  runs-IsValid (x ∷ xs) db v = runs-IsValid xs (perform x db) (perform-IsValid x db v)

  -- Whatever requests, generations, requeuings and purges are run on an empty table, whether they
  -- return or raise: no identifier stands twice, a pending report has no file, no failure and no
  -- end, a ready one has its file and an end and no failure, and a failed one has a failure, an
  -- end and no file.
  pub run-IsValid :
      (xs : List Call) (queued : List ℕ)
      → IsValid (run xs (record { records = []; queued = queued }))
  run-IsValid xs queued =
      runs-IsValid xs (record { records = []; queued = queued })
        (record { keyed = tt; consistent = tt })
