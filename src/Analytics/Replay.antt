-- ===== src/Analytics/Replay.antt =====
-- Deliveries that are repeated, and rows that were deleted.
use finty.Base.{
  ℕ, ◌≡◌, refl, sym, ◌∙◌, ap, none, some, List, [], ◌∷◌, ==_refl, inl, inr, Option-cases,
  Bool-cases,
}
use finty.Base.Table.{lookup, lookup-append}
use finty.Shared.Errors.{Result, ok}
use finty.Analytics.Projector.{
  FinanceEvent, ReadModel, ProcessedEvent, TransactionFact, Outcome, applied, ignored, duplicate,
  fact_row, processed_row, apply_event, fits, entry, finish, project,
}

-- The tables after a sequence of deliveries, each with the id of its message.
abbrev pub project_all : List (FinanceEvent × ℕ) → ReadModel → ReadModel
project_all [] db = db
project_all ((e, stream) ∷ es) db = project_all es (project e stream db).1

abbrev pub IsProcessed : ℕ → ReadModel → Type 0
IsProcessed id db = (p : ProcessedEvent) × (lookup id db.processed ≡ some p)

finish-processed :
    (e : FinanceEvent) (stream : ℕ) (db : ReadModel) (o : Outcome) (r : TransactionFact) (id : ℕ)
    (p : ProcessedEvent)
    → lookup id db.processed ≡ some p
    → lookup id (finish e stream db (o, r)).1.processed ≡ some p
unfolding finish
finish-processed e stream db applied r id p h = elim (Bool-cases (fits r.columns)) [
  | inl f ↦ rw (f, lookup-append id db.processed (entry e stream applied), h) refl
  | inr f ↦ rw f h
]
finish-processed e stream db ignored r id p h =
    rw (lookup-append id db.processed (entry e stream ignored), h) refl
finish-processed e stream db duplicate r id p h =
    rw (lookup-append id db.processed (entry e stream duplicate), h) refl

finish-own :
    (e : FinanceEvent) (stream : ℕ) (db : ReadModel) (o : Outcome) (r : TransactionFact)
    {x : Outcome} {db' : ReadModel}
    → lookup e.event_id db.processed ≡ none
    → finish e stream db (o, r) ≡ (ok x, db')
    → IsProcessed e.event_id db'
unfolding finish
finish-own e stream db applied r h k = elim (Bool-cases (fits r.columns)) [
  | inl f ↦ (
    entry e stream applied,
    ap (λ (y : Result Outcome × ReadModel). lookup e.event_id y.1.processed) (sym (rw f at k))
        ∙ rw (lookup-append e.event_id db.processed (entry e stream applied), h, ==_refl e.event_id)
            refl,
  )
  | inr f ↦ cc (rw f at k)
]
finish-own e stream db ignored r h k = (
  entry e stream ignored,
  ap (λ (y : Result Outcome × ReadModel). lookup e.event_id y.1.processed) (sym k)
      ∙ rw (lookup-append e.event_id db.processed (entry e stream ignored), h, ==_refl e.event_id)
          refl,
)
finish-own e stream db duplicate r h k = (
  entry e stream duplicate,
  ap (λ (y : Result Outcome × ReadModel). lookup e.event_id y.1.processed) (sym k)
      ∙ rw (lookup-append e.event_id db.processed (entry e stream duplicate), h, ==_refl e.event_id)
          refl,
)

pub project-old :
    (e : FinanceEvent) (stream : ℕ) (db : ReadModel) (p : ProcessedEvent)
    → lookup e.event_id db.processed ≡ some p
    → project e stream db ≡ (ok duplicate, db)
unfolding project
project-old e stream db p h = rw (project, h) refl

project-new :
    (e : FinanceEvent) (stream : ℕ) (db : ReadModel)
    → lookup e.event_id db.processed ≡ none
    → project e stream db
      ≡ finish e stream db (apply_event (lookup e.payload.transaction_id db.facts) e)
unfolding project
project-new e stream db h = rw (project, h) refl

-- An event that returned is registered.
pub project-IsProcessed :
    (e : FinanceEvent) (stream : ℕ) (db : ReadModel) {x : Outcome} {db' : ReadModel}
    → project e stream db ≡ (ok x, db')
    → IsProcessed e.event_id db'
project-IsProcessed e stream db k = elim (Option-cases (lookup e.event_id db.processed)) [
  | inl new ↦ finish-own e stream db _ _ new (sym (project-new e stream db new) ∙ k)
  | inr (p, old) ↦ (
    p,
    ap (λ (y : Result Outcome × ReadModel). lookup e.event_id y.1.processed)
          (sym (sym (project-old e stream db p old) ∙ k))
        ∙ old,
  )
]

pub kept :
    (e : FinanceEvent) (stream : ℕ) (db : ReadModel) (id : ℕ)
    → IsProcessed id db
    → IsProcessed id (project e stream db).1
kept e stream db id (p, h) = elim (Option-cases (lookup e.event_id db.processed)) [
  | inl new ↦ (p, rw (project-new e stream db new) (finish-processed e stream db _ _ id p h))
  | inr (q, old) ↦ (p, rw (project-old e stream db q old) h)
]

all-kept :
    (es : List (FinanceEvent × ℕ)) (db : ReadModel) (id : ℕ)
    → IsProcessed id db
    → IsProcessed id (project_all es db)
all-kept [] db id h = h
all-kept ((e, stream) ∷ es) db id h = all-kept es (project e stream db).1 id (kept e stream db id h)

-- Where the projection of an event returned, projecting it again after any further deliveries
-- returns that it is a duplicate and changes no table.
pub project-again :
    (e : FinanceEvent) (stream again : ℕ) (es : List (FinanceEvent × ℕ)) (db : ReadModel)
    {x : Outcome} {db' : ReadModel}
    → project e stream db ≡ (ok x, db')
    → project e again (project_all es db') ≡ (ok duplicate, project_all es db')
project-again e stream again es db {db' = db'} k =
    let (p, h) = all-kept es db' e.event_id (project-IsProcessed e stream db k) in
    project-old e again (project_all es db') p h
