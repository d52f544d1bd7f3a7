-- ===== src/Finance/Transactions/Delete.antt =====
-- What a successful `delete_transaction` did to the tables.
use mathlib.Core.Option.{some-injective}
use finty.Base.{
  ℕ, ◌+◌, ◌≡◌, refl, ◌∙◌, ap, subst, sym, true, Option, none, some, List, [], ◌∷◌, ◌++◌, ◌==◌, find,
  arith, inl, inr, Bool-cases, ==_iff,
}
use finty.Base.Int.{ℤ, pos, ◌+ℤ◌, ltb_ℤ}
use finty.Base.Table.{lookup, update, erase, IsKeyed}
use finty.Shared.Errors.{ok, ok-injective}
use finty.Shared.Python.{Python}
use finty.Shared.Money.{Money}
use finty.Shared.Money.Laws.{money-ok}
use finty.Finance.ValueObjects.{AccountSnapshot, allows_negative_balance}
use finty.Finance.Logic.{ensure_balance_allowed}
use finty.Finance.Logic.Balance.{signed, revert-ok}
use finty.Finance.Events.{TransactionFacts, transaction_deleted, event}
use finty.Finance.Store.{
  Category, Account, Transaction, Db, account_row, transaction_row, category_row,
  delete_transaction_row,
}
use finty.Finance.Store.Effects.{pending, set_balance-ok, record_event-ok}
use finty.Finance.Session.{bind-ok, lift-ok, gets-ok, exec-ok, check-ok, pure-ok, atomic-ok, lift}
use finty.Finance.Translate.{Env}
use finty.Finance.Translate.Inverse.{IsSnapshot, build_snapshot-ok}
use finty.Finance.Accounts.{found}
use finty.Finance.Accounts.Fetch.{fetch-ok}
use finty.Finance.Transactions.{
  category_of, owned, owned_transaction, get_transaction, delete_transaction,
}
use finty.Finance.Transactions.Facts.{AreFacts, facts-ok}
use finty.Finance.Transactions.Register.{allowed-ok}

find-owned_transaction :
    (user id : ℕ) (db : Db) (m : List Transaction) (t : Transaction)
    → find (owned_transaction user id db) m ≡ some t
    → IsKeyed m
    → (t.id ≡ id) × (lookup id m ≡ some t) × (owned user (lookup t.account_id db.accounts) ≡ true)
find-owned_transaction user id db [] t e k = cc
find-owned_transaction user id db (s ∷ m) t e (new, k) =
    let own = owned user (lookup s.account_id db.accounts) in
    let ih = find-owned_transaction user id db m t in
    elim (Bool-cases (s.id == id)) [
      | inl h ↦ elim (Bool-cases own) [
        | inl o ↦
            let same : s ≡ t = some-injective _ _ (rw (h, o) at e) in
            (rw (← same) ((==_iff s.id id).0 h), rw (h, same) refl, rw (← same) o)
        | inr o ↦
            let (i, found, _) = ih (rw (h, o) at e) k in
            cc (rw ((==_iff s.id id).0 h) at new, found)
      ]
      | inr h ↦ let (i, found, o) = ih (rw h at e) k in (i, rw h found, o)
    ]

-- A row that `get_transaction` returns stands in the table, and its account is the user's.
pub get-ok :
    (user : ℕ) (id : Option ℕ) (db : Db) {t : Transaction} {db₁ : Db}
    → IsKeyed db.transactions
    → get_transaction user id db ≡ (ok t, db₁)
    → (db₁ ≡ db)
      × (id ≡ some t.id)
      × (lookup t.id db.transactions ≡ some t)
      × (owned user (lookup t.account_id db.accounts) ≡ true)
unfolding get_transaction lift
get-ok user none db k e = cc
get-ok user (some id) db {t = t} k e =
    ground (arith, find-owned_transaction user id db db.transactions t)

-- The category of an identifier in the table, if there is one.
abbrev pub category_at : Option ℕ → Db → Option Category
category_at none db = none
category_at (some id) db = lookup id db.categories

at_id :
    (id : Option ℕ) (db : Db)
    → elim id [ none ↦ none | some i ↦ lookup i db.categories ] ≡ category_at id db
at_id none db = refl
at_id (some i) db = refl

category_of-at : (t : Transaction) (db : Db) → category_of t db ≡ category_at t.category_id db
unfolding category_of
category_of-at t db = at_id t.category_id db

-- The user's row is gone, its account's balance is what it was without the row and is allowed, and
-- one event with the facts of the row was recorded. Nothing else changed.
pub record IsDeleted ⦃p : Python⦄ (env : Env) (user : ℕ) (db : Db) (t : Transaction) (db' : Db)
    : Type 0 where
  pub account : Account
  pub facts : TransactionFacts
  pub found : lookup account.id db.accounts ≡ some account
  pub owner : account.user_id ≡ user
  pub linked : t.account_id ≡ account.id
  pub present : lookup t.id db.transactions ≡ some t
  pub balance : ℤ
  pub moved : balance +ℤ signed t.type t.amount ≡ account.balance
  pub allowed : ltb_ℤ balance (pos 0) ≡ true → allows_negative_balance account.type ≡ true
  pub described : AreFacts t account (category_at t.category_id db) facts
  pub tables : db' ≡ record db {
    accounts = update account.id (λ a. record a { balance = balance }) db.accounts;
    transactions = erase t.id db.transactions;
    outbox =
        db.outbox
        ++ (pending db.next_outbox_id (event transaction_deleted facts env.now env.event_id) ∷ []);
    next_outbox_id = db.next_outbox_id + 1;
  }

erased :
    (id : ℕ) (db : Db) {db' : Db}
    → delete_transaction_row id db ≡ ok db'
    → db' ≡ record db { transactions = erase id db.transactions }
unfolding delete_transaction_row
erased id db e = sym (ok-injective e)

assemble :
    ⦃p : Python⦄ (env : Env) (user : ℕ) (db : Db) (t : Transaction) (a : Account)
    (s : AccountSnapshot) (x m : Money) (f : TransactionFacts) (db₁ db₂ db₃ db₄ db₅ db' : Db)
    → db₁ ≡ db
    → lookup t.id db.transactions ≡ some t
    → db₂ ≡ db₁
    → a.user_id ≡ user
    → some t.account_id ≡ some a.id
    → lookup a.id db₁.accounts ≡ some a
    → IsSnapshot a s
    → x.amount ≡ t.amount
    → m.amount +ℤ signed t.type x.amount ≡ s.balance.amount
    → ensure_balance_allowed s.account_type m ≡ ok tt
    → AreFacts t a (category_of t db₂) f
    → db₃ ≡ record db₂ { transactions = erase t.id db₂.transactions }
    → db₄
      ≡ record db₃ { accounts = update a.id (λ y. record y { balance = m.amount }) db₃.accounts }
    → db₅ ≡ record db₄ {
      outbox =
          db₄.outbox
          ++ (pending db₄.next_outbox_id (event transaction_deleted f env.now env.event_id) ∷ []);
      next_outbox_id = db₄.next_outbox_id + 1;
    }
    → db' ≡ db₅
    → IsDeleted env user db t db'
assemble env user db t a s x m f db₁ db₂ db₃ db₄ db₅ db' h₁ present h₂ owner linked found snap
      amount moved allowed facts h₃ h₄ h₅ last =
    record {
      account = a;
      facts = f;
      found = rw (← h₁) found;
      owner = owner;
      linked = cc;
      present = present;
      balance = m.amount;
      moved = rw (← amount) (moved ∙ snap.balance);
      allowed = rw (← snap.type) (allowed-ok s.account_type m allowed);
      described =
          subst (λ c. AreFacts t a c f) (ap (category_of t) (h₂ ∙ h₁) ∙ category_of-at t db) facts;
      tables = cc;
    }

module _ ⦃p : Python⦄ where
  -- For keyed tables, a deletion that returns removed the row of the identifier, which belongs to
  -- an account of the user, set its balance to what it was without the row, which is allowed, and
  -- recorded one event with the facts of the row, the account's currency and the name of the
  -- category that the row has in the table; nothing else changed.
  pub delete-IsDeleted :
      (env : Env) (user : ℕ) (id : Option ℕ) (db : Db) {db' : Db}
      → IsKeyed db.accounts
      → IsKeyed db.transactions
      → delete_transaction env user id db ≡ (ok tt, db')
      → (t : Transaction) × (id ≡ some t.id) × IsDeleted env user db t db'
  unfolding delete_transaction
  delete-IsDeleted env user id db {db' = db'} keyed keys e =
      let (t, db₁, e₁, e₂) = bind-ok _ _ _ (atomic-ok _ _ e) in
      let (same₁, is, present, _) = get-ok user id db keys e₁ in
      let (a, db₂, e₃, e₄) = bind-ok _ _ _ e₂ in
      let (same₂, owner, linked, found) =
        fetch-ok user (some t.account_id) db₁ (rw same₁ keyed) e₃ in
      let (s, e₅, e₆) = lift-ok _ _ _ e₄ in
      let (x, e₇, e₈) = lift-ok _ _ _ e₆ in
      let (m, e₉, e₁₀) = lift-ok _ _ _ e₈ in
      let (allowed, e₁₁) = check-ok _ _ _ e₁₀ in
      let (f, e₁₂, e₁₃) = lift-ok _ _ _ (gets-ok _ _ _ e₁₁) in
      let (db₃, e₁₄, e₁₅) = exec-ok _ _ _ e₁₃ in
      let (db₄, e₁₆, e₁₇) = exec-ok _ _ _ e₁₅ in
      let (db₅, e₁₈, e₁₉) = exec-ok _ _ _ e₁₇ in
      (
        t,
        is,
        assemble env user db t a s x m f db₁ db₂ db₃ db₄ db₅ db' same₁ present same₂ owner linked
            found (build_snapshot-ok a e₅) (money-ok _ _ e₇).0 (revert-ok _ _ _ e₉) allowed
            (facts-ok _ _ _ e₁₂) (erased _ _ e₁₄) (set_balance-ok _ _ _ e₁₆).0
            (record_event-ok _ _ e₁₈) (pure-ok _ _ e₁₉).1,
      )
