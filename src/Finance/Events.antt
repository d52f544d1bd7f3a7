-- ===== src/Finance/Events.antt =====
-- The domain events (services/finance-service/domain/events.py). The instants carry their zone, so
-- that `occurred_at` is a number; the text types of the fields are the enumerations already.
use finty.Base.{ℕ, Option}
use finty.Base.Text.{Text}
use finty.Shared.Money.{Money}
use finty.Finance.ValueObjects.{TransactionType, CategorizationSource}

abbrev pub event_schema_version : ℕ
event_schema_version = 1

pub data EventType : Type 0 where
  transaction_manually_added transaction_categorized transaction_deleted : EventType

pub record TransactionFacts : Type 0 where
  pub user_id : ℕ
  pub transaction_id : ℕ
  pub account_id : ℕ
  pub amount : Money
  pub transaction_type : TransactionType
  pub category_name : Option Text
  pub categorization_source : Option CategorizationSource
  pub occurred_on : ℕ
  pub description : Text

pub record DomainEvent : Type 0 where
  pub event_id : ℕ
  pub event_type : EventType
  pub occurred_at : ℕ
  pub version : ℕ
  pub payload : TransactionFacts

-- `_event`, which the three constructors of events call with their type.
abbrev pub event : EventType → TransactionFacts → ℕ → ℕ → DomainEvent
event t facts at id = record {
  event_id = id;
  event_type = t;
  occurred_at = at;
  version = event_schema_version;
  payload = facts;
}
