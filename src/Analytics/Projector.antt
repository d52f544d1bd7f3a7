-- ===== src/Analytics/Projector.antt =====
-- `EventProjector` (services/analytics-service/services.py), on the events of domain/events.py and
-- the tables of models.py. Instants carry their zone, so that they are numbers.
use finty.Base.{
  ℕ, Bool, true, false, not, ◌&&◌, Option, none, some, List, [], ◌∷◌, ◌++◌, ltb, leb, length,
  if◌then◌else◌, max, ◌==◌,
}
use finty.Base.Int.{magnitude}
use finty.Base.Table.{Row, lookup, update}
use finty.Base.Text.{Text}
use finty.Shared.Errors.{data_error, Result, ok, err}
use finty.Shared.Money.{Money}
use finty.Finance.ValueObjects.{TransactionType}

pub data EventType : Type 0 where
  transaction_manually_added transaction_categorized transaction_deleted : EventType

pub record TransactionSnapshot : Type 0 where
  pub user_id : ℕ
  pub transaction_id : ℕ
  pub account_id : ℕ
  pub amount : Money
  pub transaction_type : TransactionType
  pub category_name : Option Text
  pub categorization_source : Option Text
  pub occurred_on : ℕ
  pub description : Text

pub record FinanceEvent : Type 0 where
  pub event_id : ℕ
  pub event_type : EventType
  pub occurred_at : ℕ
  pub payload : TransactionSnapshot

-- A row of `transaction_fact`; `columns` are those of `_snapshot_columns`.
pub record TransactionFact : Type 0 where
  pub columns : TransactionSnapshot
  pub deleted_at : Option ℕ
  pub last_event_at : ℕ

pub data Outcome : Type 0 where
  applied ignored duplicate : Outcome

pub record ProcessedEvent : Type 0 where
  pub event_id : ℕ
  pub event_type : EventType
  pub stream_id : ℕ
  pub outcome : Outcome

instance abbrev pub fact_row : Row TransactionFact
fact_row = record { key = λ f. f.columns.transaction_id }

instance abbrev pub processed_row : Row ProcessedEvent
processed_row = record { key = λ e. e.event_id }

pub record ReadModel : Type 0 where
  pub facts : List TransactionFact
  pub processed : List ProcessedEvent

abbrev pub is_deleted : EventType → Bool
is_deleted transaction_deleted = true
is_deleted transaction_manually_added = false
is_deleted transaction_categorized = false

-- The row of the first event of a transaction.
abbrev pub first_fact : FinanceEvent → TransactionFact
first_fact e = record {
  columns = e.payload;
  deleted_at = if is_deleted e.event_type then some e.occurred_at else none;
  last_event_at = e.occurred_at;
}

-- What an event that is not too old writes in the columns of a live row.
abbrev pub new_columns : TransactionSnapshot → FinanceEvent → TransactionSnapshot
new_columns c e = elim e.event_type [
  | transaction_deleted ↦ c
  | transaction_categorized ↦ record c {
    category_name = e.payload.category_name;
    categorization_source = e.payload.categorization_source;
  }
  | transaction_manually_added ↦ e.payload
]

abbrev pub touched : TransactionFact → FinanceEvent → TransactionFact
touched r e = record {
  columns = new_columns r.columns e;
  deleted_at = if is_deleted e.event_type then some e.occurred_at else r.deleted_at;
  last_event_at = max r.last_event_at e.occurred_at;
}

-- `_apply` on a row that is there.
abbrev pub apply_to : Option ℕ → TransactionFact → FinanceEvent → Outcome × TransactionFact
apply_to (some _) r e = (ignored, r)
apply_to none r e =
    if not (is_deleted e.event_type) && ltb e.occurred_at r.last_event_at
    then (ignored, r)
    else (applied, touched r e)

-- `_apply`: the outcome, and the row of the transaction afterwards.
unfoldable pub apply_event : Option TransactionFact → FinanceEvent → Outcome × TransactionFact
apply_event none e = (applied, first_fact e)
apply_event (some r) e = apply_to r.deleted_at r e

abbrev short : ℕ → Option Text → Bool
short n none = true
short n (some t) = leb (length t) n

-- Whether PostgreSQL takes the columns: their lengths, `Numeric(14, 2)` and `ck_fact_currency_length`.
unfoldable pub fits : TransactionSnapshot → Bool
fits c =
    ltb (magnitude c.amount.amount) 100000000000000
    && length c.amount.currency == 3
    && leb (length c.description) 255
    && short 80 c.category_name
    && short 10 c.categorization_source

-- The row in the table, new or changed.
abbrev pub store_fact :
    Option TransactionFact → TransactionFact → List TransactionFact → List TransactionFact
store_fact none r m = m ++ (r ∷ [])
store_fact (some _) r m = update r.columns.transaction_id (λ _. r) m

abbrev pub entry : FinanceEvent → ℕ → Outcome → ProcessedEvent
entry e stream o = record {
  event_id = e.event_id;
  event_type = e.event_type;
  stream_id = stream;
  outcome = o;
}

unfoldable pub finish :
    FinanceEvent → ℕ → ReadModel → Outcome × TransactionFact → Result Outcome × ReadModel
finish e stream db (applied, r) =
    if fits r.columns
    then (
      ok applied,
      record {
        facts = store_fact (lookup e.payload.transaction_id db.facts) r db.facts;
        processed = db.processed ++ (entry e stream applied ∷ []);
      },
    )
    else (err data_error, db)
finish e stream db (o, r) =
    (ok o, record db { processed = db.processed ++ (entry e stream o ∷ []) })

-- `project`: what it returns or raises, and the tables afterwards.
unfoldable pub project : FinanceEvent → ℕ → ReadModel → Result Outcome × ReadModel
project e stream db = elim (lookup e.event_id db.processed) [
  | some _ ↦ (ok duplicate, db)
  | none ↦ finish e stream db (apply_event (lookup e.payload.transaction_id db.facts) e)
]
