-- ===== src/Analytics/Consumer.antt =====
-- `EventConsumer` (services/analytics-service/services.py): messages of the stream, taken to the
-- projector and confirmed after its commit. The source and the decoder are arguments.
pub mod Delivered
use finty.Base.{⊤, ℕ, Bool, Option, none, some, List, [], ◌∷◌, ◌++◌, length, if◌then◌else◌}
use finty.Shared.Errors.{stream_unavailable, Result, ok, err, ◌>>=◌}
use finty.Analytics.Projector.{FinanceEvent, ReadModel, Outcome, project}

-- A message, with its identifier in the stream.
pub record Message (F : Type 0) : Type 0 where
  pub id : ℕ
  pub fields : F

-- What the code takes from outside: the decoder, with `none` for `InvalidEventError`, and whether
-- the stream takes the confirmation of a message or raises.
pub record Source (F : Type 0) : Type 0 where
  pub decode : F → Option FinanceEvent
  pub takes_ack : ℕ → Bool

-- The tables, and the messages that are confirmed, the newest last.
pub record Consumer (F : Type 0) : Type 0 where
  pub model : ReadModel
  pub acked : List (Message F)

module _ {F : Type 0} (s : Source F) where
  -- `ack`, and then the return of a value.
  unfoldable pub acknowledge : {A : Type 0} → A → Message F → Consumer F → Result A × Consumer F
  acknowledge v m w =
      if s.takes_ack m.id
      then (ok v, record w { acked = w.acked ++ (m ∷ []) })
      else (err stream_unavailable, w)

  -- What follows the projection.
  unfoldable pub projected :
      Message F → Consumer F → Result Outcome × ReadModel → Result (Option Outcome) × Consumer F
  projected m w (err e, db) = (err e, record w { model = db })
  projected m w (ok o, db) = acknowledge (some o) m (record w { model = db })

  -- `_handle`; `none` is INVALID.
  unfoldable pub handle_decoded :
      Option FinanceEvent → Message F → Consumer F → Result (Option Outcome) × Consumer F
  handle_decoded none m w = acknowledge none m w
  handle_decoded (some e) m w = projected m w (project e m.id w.model)

  unfoldable pub handle : Message F → Consumer F → Result (Option Outcome) × Consumer F
  handle m w = handle_decoded (s.decode m.fields) m w

  -- The loop of `_handle_all`: what is raised ends it.
  unfoldable pub then_rest :
      Result (Option Outcome) × Consumer F
      → (Consumer F → Result ⊤ × Consumer F)
      → Result ⊤ × Consumer F
  then_rest (err e, w) rest = (err e, w)
  then_rest (ok o, w) rest = rest w

  unfoldable pub handle_each : List (Message F) → Consumer F → Result ⊤ × Consumer F
  handle_each [] w = (ok tt, w)
  handle_each (m ∷ ms) w = then_rest (handle m w) (λ next. handle_each ms next)

  unfoldable pub handle_all : List (Message F) → Consumer F → Result ℕ × Consumer F
  handle_all ms w = let (r, last) = handle_each ms w in (r >>= (λ _. ok (length ms)), last)
