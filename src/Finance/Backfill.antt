-- ===== src/Finance/Backfill.antt =====
-- `OutboxBackfill` (services/finance-service/services.py). New identifiers of events are drawn by the
-- position in the outbox.
pub mod Recorded
pub mod Complete
use finty.Base.{
  ⊤, ℕ, zero, suc, ◌+◌, Bool, true, false, not, ◌||◌, ◌&&◌, Option, none, some, List, [], ◌∷◌, ltb,
  ◌==◌, keep, length, order_by, if◌then◌else◌,
}
use finty.Shared.Errors.{Result, ok, err}
use finty.Shared.Python.{Python}
use finty.Finance.Events.{
  EventType, transaction_manually_added, transaction_categorized, transaction_deleted, event,
}
use finty.Finance.Store.{Transaction, OutboxEvent, Db, record_event}
use finty.Finance.Session.{Session, ◌>>=◌, ◌>>◌, pure, lift, gets, atomic}
use finty.Finance.Translate.{transaction_facts}
use finty.Finance.Transactions.{account_of, category_of}

-- `already_recorded`: the outbox has the event of the transaction's registration.
abbrev pub is_added : EventType → Bool
is_added transaction_manually_added = true
is_added transaction_categorized = false
is_added transaction_deleted = false

abbrev pub is_recorded : ℕ → List OutboxEvent → Bool
is_recorded id [] = false
is_recorded id (e ∷ m) = (is_added e.event.event_type && e.aggregate_id == id) || is_recorded id m

abbrev pub is_missing : List OutboxEvent → Transaction → Bool
is_missing outbox t = not (is_recorded t.id outbox)

abbrev pub missing : Db → List Transaction
missing db = keep (is_missing db.outbox) db.transactions

-- `ORDER BY created_at, id`
abbrev pub earlier : Transaction → Transaction → Bool
earlier a b = ltb a.created_at b.created_at || (a.created_at == b.created_at && ltb a.id b.id)

abbrev pub take {ℓ} : {A : Type ℓ} → ℕ → List A → List A
take zero xs = []
take (suc n) [] = []
take (suc n) (x ∷ xs) = x ∷ take n xs

-- The query of one round.
abbrev pub chosen : ℕ → Db → List Transaction
chosen batch_size db = take batch_size (order_by earlier (missing db))

module _ ⦃p : Python⦄ (ids : ℕ → ℕ) where
  -- The body of one round: an event for each transaction, at the instant of its registration.
  unfoldable pub record_all : List Transaction → Session ⊤
  record_all [] = pure tt
  record_all (t ∷ ts) = do
    account ← account_of t
    category ← gets (category_of t)
    facts ← lift (transaction_facts t account category)
    id ← gets (λ db. ids db.next_outbox_id)
    record_event (event transaction_manually_added facts t.created_at id)
    record_all ts

  -- What follows a round of `n` transactions: the end, or the next round.
  unfoldable pub after_round :
      ℕ → ℕ → ℕ → (ℕ → Db → Option (Result ℕ × Db)) → Result ⊤ × Db → Option (Result ℕ × Db)
  after_round batch_size n created next (err e, db) = some (err e, db)
  after_round batch_size n created next (ok _, db) =
      if ltb n batch_size then some (ok (created + n), db) else next (created + n) db

  -- The `while True`, for at most `fuel` rounds; `none` where it has not ended by then.
  unfoldable pub rounds : ℕ → ℕ → ℕ → Db → Option (Result ℕ × Db)
  rounds zero batch_size created db = none
  rounds (suc fuel) batch_size created db =
      after_round batch_size (length (chosen batch_size db)) created (rounds fuel batch_size)
        (atomic (record_all (chosen batch_size db)) db)

  -- `run`
  unfoldable pub run : ℕ → ℕ → Db → Option (Result ℕ × Db)
  run fuel batch_size db = rounds fuel batch_size 0 db
