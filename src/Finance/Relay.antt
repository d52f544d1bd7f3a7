-- ===== src/Finance/Relay.antt =====
-- `OutboxRelay` (services/finance-service/services.py). The stream is a parameter: publishing on its
-- state gives the id of the message, or nothing where it raises `EventStreamUnavailable`.
pub mod Counted
use finty.Base.{
  ℕ, zero, suc, ◌+◌, Bool, true, false, Option, none, some, List, [], ◌∷◌, ltb, if◌then◌else◌,
}
use finty.Base.Table.{update}
use finty.Shared.Errors.{stream_unavailable, Result, ok, err}
use finty.Finance.Events.{DomainEvent}
use finty.Finance.Store.{OutboxEvent, Db, outbox_row}

abbrev pub is_pending : OutboxEvent → Bool
is_pending e = elim e.published_at [ none ↦ true | some _ ↦ false ]

abbrev pub older : OutboxEvent → Option OutboxEvent → OutboxEvent
older e none = e
older e (some f) = if ltb f.id e.id then f else e

-- The pending event of the lowest id: `ORDER BY id LIMIT 1`. Other relays lock none of them.
unfoldable pub oldest : List OutboxEvent → Option OutboxEvent
oldest [] = none
oldest (e ∷ m) = let rest = oldest m in if is_pending e then some (older e rest) else rest

abbrev pub marked : ℕ → ℕ → OutboxEvent → OutboxEvent
marked message now e = record e { published_at = some now; stream_id = some message }

abbrev pub mark : ℕ → ℕ → ℕ → Db → Db
mark id message now db = record db { outbox = update id (marked message now) db.outbox }

-- `pending_count`
unfoldable pub pending_count : List OutboxEvent → ℕ
pending_count [] = 0
pending_count (e ∷ m) = let rest = pending_count m in if is_pending e then suc rest else rest

module _ {S : Type 0} (publish : S → DomainEvent → Option ℕ × S) (now : ℕ) where
  -- The loop of `publish_pending`: how many rounds are left, and how many events were published. Each
  -- round commits on its own; a stream that fails leaves its event pending.
  unfoldable pub publish_loop : ℕ → ℕ → Db → S → Result ℕ × Db × S
  publish_loop zero published db s = (ok published, db, s)
  publish_loop (suc n) published db s = elim (oldest db.outbox) [
    | none ↦ (ok published, db, s)
    | some e ↦
        let sent = publish s e.event in
        elim sent.0 [
          | none ↦ (err stream_unavailable, db, sent.1)
          | some message ↦ publish_loop n (published + 1) (mark e.id message now db) sent.1
        ]
  ]

  unfoldable pub publish_pending : ℕ → Db → S → Result ℕ × Db × S
  publish_pending limit db s = publish_loop limit 0 db s
