-- ===== src/Finance/Backfill/Recorded.antt =====
-- What one round of the backfill leaves in the tables.
use finty.Base.{
  ℕ, ◌+◌, ◌≡◌, refl, sym, ap, ◌∙◌, Bool, false, ◌||◌, ◌&&◌, Option, List, [], ◌∷◌, ◌++◌, arith,
  length, length-append, ◌==◌, subst,
}
use finty.Shared.Errors as Errors
use finty.Shared.Errors.{Result, ok, err, ok-injective}
use finty.Shared.Python.{Python}
use finty.Finance.Events.{DomainEvent, TransactionFacts, transaction_manually_added, event}
use finty.Finance.Store.{Category, Account, Transaction, OutboxEvent, Db, record_event}
use finty.Finance.Store.Effects.{pending, record_event-ok}
use finty.Finance.Session.{lift, bind-ok, lift-ok, gets-ok, exec-ok, pure-ok}
use finty.Finance.Translate.{transaction_facts}
use finty.Finance.Transactions.{account_of, category_of}
use finty.Finance.Backfill.{is_added, is_recorded, record_all}

abbrev pub is_in : ℕ → List Transaction → Bool
is_in id [] = false
is_in id (t ∷ ts) = t.id == id || is_in id ts

-- The events of `ts` were added, and nothing else changed.
pub record IsRecorded (ts : List Transaction) (db after : Db) : Type 0 where
  pub transactions : after.transactions ≡ db.transactions
  pub accounts : after.accounts ≡ db.accounts
  pub longer : length after.outbox ≡ length db.outbox + length ts
  pub recorded : (id : ℕ) → is_recorded id after.outbox ≡ (is_recorded id db.outbox || is_in id ts)

is_recorded-append :
    (id : ℕ) (m : List OutboxEvent) (e : OutboxEvent)
    → is_recorded id (m ++ (e ∷ []))
      ≡ (is_recorded id m || (is_added e.event.event_type && e.aggregate_id == id))
is_recorded-append id [] e = ground arith
is_recorded-append id (a ∷ m) e = ground (arith, is_recorded-append id m e)

account_of-ok :
    (t : Transaction) (db : Db) {a : Account} {db₁ : Db} → account_of t db ≡ (ok a, db₁) → db₁ ≡ db
unfolding account_of lift
account_of-ok t db e = ground arith

or_assoc : (a b c : Bool) → ((a || b) || c) ≡ (a || (b || c))
or_assoc a b c = ground arith

module _ ⦃p : Python⦄ where
  facts-id :
      (t : Transaction) (db : Db) (v : DomainEvent) {db₁ : Db}
      → record_event v db ≡ ok db₁
      → v.payload.transaction_id ≡ t.id
      → v.event_type ≡ transaction_manually_added
      → IsRecorded (t ∷ []) db db₁
  facts-id t db v e same kind =
      let added = record_event-ok v db e in
      record {
        transactions = ap (λ (x : Db). x.transactions) added;
        accounts = ap (λ (x : Db). x.accounts) added;
        longer =
            ap (λ (x : Db). length x.outbox) added
            ∙ length-append db.outbox (pending db.next_outbox_id v ∷ []);
        recorded = λ id.
            ap (λ (x : Db). is_recorded id x.outbox) added
            ∙ is_recorded-append id db.outbox (pending db.next_outbox_id v)
            ∙ rw (same, kind) (ground arith);
      }

  IsRecorded-then :
      (t : Transaction) (ts : List Transaction) (a b c : Db)
      → IsRecorded (t ∷ []) a b
      → IsRecorded ts b c
      → IsRecorded (t ∷ ts) a c
  IsRecorded-then t ts a b c h k = record {
    transactions = k.transactions ∙ h.transactions;
    accounts = k.accounts ∙ h.accounts;
    longer = omega (arith, k.longer, h.longer);
    recorded = λ id. ground (arith, h.recorded id, k.recorded id);
  }

  facts-of_row :
      (t : Transaction) (a : Account) (category : Option Category) {facts : TransactionFacts}
      → transaction_facts t a category ≡ ok facts
      → facts.transaction_id ≡ t.id
  unfolding transaction_facts
  facts-of_row t a category h =
      let (amount, read, e) = Errors.>>=-eq-ok _ _ h in
      ap (λ (x : TransactionFacts). x.transaction_id) (sym (ok-injective e))

  pub record_all-IsRecorded :
      (ids : ℕ → ℕ) (ts : List Transaction) (db : Db) {after : Db}
      → record_all ids ts db ≡ (ok tt, after)
      → IsRecorded ts db after
  unfolding record_all
  record_all-IsRecorded ids [] db {after = after} h =
      let same : after ≡ db = (pure-ok tt db h).1 in
      record {
        transactions = ap (λ (x : Db). x.transactions) same;
        accounts = ap (λ (x : Db). x.accounts) same;
        longer = ap (λ (x : Db). length x.outbox) same ∙ omega arith;
        recorded = λ id. ap (λ (x : Db). is_recorded id x.outbox) same ∙ ground arith;
      }
  record_all-IsRecorded ids (t ∷ ts) db {after = after} h =
      let (account, db₁, fetched, h₁) = bind-ok _ _ db h in
      let h₂ = gets-ok (category_of t) _ db₁ h₁ in
      let (facts, read, h₃) = lift-ok _ _ db₁ h₂ in
      let h₄ = gets-ok (λ (x : Db). ids x.next_outbox_id) _ db₁ h₃ in
      let (db₂, added, h₅) = exec-ok _ _ db₁ h₄ in
      let v = event transaction_manually_added facts t.created_at (ids db₁.next_outbox_id) in
      let one = facts-id t db₁ v added (facts-of_row t account (category_of t db₁) read) refl in
      let first : IsRecorded (t ∷ []) db db₂ =
        subst (λ x. IsRecorded (t ∷ []) x db₂) (account_of-ok t db fetched) one in
      IsRecorded-then t ts db db₂ after first (record_all-IsRecorded ids ts db₂ h₅)
