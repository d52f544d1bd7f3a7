-- ===== src/Finance/Transactions/Recategorize.antt =====
-- What a successful `recategorize` did to the tables.
use mathlib.Core.Option.{some-injective}
use finty.Base.{ℕ, ◌+◌, ◌≡◌, refl, ◌∙◌, ap, sym, true, Option, none, some, [], ◌∷◌, ◌++◌, arith}
use finty.Base.Table.{lookup, update, IsKeyed}
use finty.Base.Text.{Text}
use finty.Shared.Errors.{ok, ok-injective}
use finty.Shared.Python.{Python}
use finty.Finance.ValueObjects.{manual}
use finty.Finance.Logic.{ensure_categorized}
use finty.Finance.Builders.{manual_category_confidence}
use finty.Finance.Events.{TransactionFacts, transaction_categorized, event}
use finty.Finance.Store.{
  Account, Category, Transaction, Db, account_row, transaction_row, set_category,
}
use finty.Finance.Store.Effects.{pending, record_event-ok}
use finty.Finance.Session.{bind-ok, lift-ok, exec-ok, check-ok, pure-ok, atomic-ok, lift}
use finty.Finance.Translate.{Env}
use finty.Finance.Accounts.{found}
use finty.Finance.Transactions.{owned, account_of, store_category, recategorize}
use finty.Finance.Transactions.Facts.{AreFacts, IsCategory, facts-ok, resolve-ok, resolve-category}
use finty.Finance.Transactions.Delete.{get-ok}

-- The row with the category that its owner chose.
abbrev pub recategorized : ℕ → Transaction → Transaction
recategorized c t = record t {
  category_id = some c;
  categorization_source = some manual;
  categorization_confidence = some manual_category_confidence;
}

-- The user's row took the category of the name as a manual one, and one event with the facts of the
-- new row was recorded. No balance changed.
pub record IsRecategorized ⦃p : Python⦄ (env : Env) (user : ℕ) (name : Text) (db : Db)
    (t : Transaction) (db' : Db) : Type 0 where
  pub old : Transaction
  pub account : Account
  pub category : Category
  pub facts : TransactionFacts
  pub present : lookup old.id db.transactions ≡ some old
  pub found : lookup old.account_id db.accounts ≡ some account
  pub owner : account.user_id ≡ user
  pub chosen : IsCategory db name old.type category
  pub changed : t ≡ recategorized category.id old
  pub described : AreFacts t account (some category) facts
  pub tables : db' ≡ record db {
    transactions = update old.id (recategorized category.id) db.transactions;
    outbox =
        db.outbox
        ++ (pending db.next_outbox_id (event transaction_categorized facts env.now env.event_id)
            ∷ []);
    next_outbox_id = db.next_outbox_id + 1;
  }

pub account_of-ok :
    (t : Transaction) (db : Db) {a : Account} {db₁ : Db}
    → account_of t db ≡ (ok a, db₁)
    → (db₁ ≡ db) × (lookup t.account_id db.accounts ≡ some a)
unfolding account_of lift
account_of-ok t db e = ground arith

categorized-some : (n : Option Text) → ensure_categorized n ≡ ok tt → (s : Text) × (n ≡ some s)
unfolding ensure_categorized
categorized-some none e = cc
categorized-some (some s) e = (s, refl)

changed_row :
    (id c : ℕ) (db : Db) {db' : Db}
    → set_category id (some c) manual manual_category_confidence db ≡ ok db'
    → db' ≡ record db { transactions = update id (recategorized c) db.transactions }
unfolding set_category
changed_row id c db e = sym (ok-injective e)

-- The tables after the end of the call.
record IsStored ⦃p : Python⦄ (env : Env) (old : Transaction) (c : Category) (db : Db)
    (t : Transaction) (db' : Db) : Type 0 where
  account : Account
  facts : TransactionFacts
  found : lookup old.account_id db.accounts ≡ some account
  described : AreFacts t account (some c) facts
  changed : t ≡ recategorized c.id old
  tables : db' ≡ record db {
    transactions = update old.id (recategorized c.id) db.transactions;
    outbox =
        db.outbox
        ++ (pending db.next_outbox_id (event transaction_categorized facts env.now env.event_id)
            ∷ []);
    next_outbox_id = db.next_outbox_id + 1;
  }

stored :
    ⦃p : Python⦄ (env : Env) (old : Transaction) (a : Account) (c : Category) (f : TransactionFacts)
    (t : Transaction) (db db₃ db₄ db₅ db' : Db)
    → db₃ ≡ record db { transactions = update old.id (recategorized c.id) db.transactions }
    → db₄ ≡ db₃
    → lookup old.account_id db₃.accounts ≡ some a
    → AreFacts (recategorized c.id old) a (some c) f
    → db₅ ≡ record db₄ {
      outbox =
          db₄.outbox
          ++ (pending db₄.next_outbox_id (event transaction_categorized f env.now env.event_id)
              ∷ []);
      next_outbox_id = db₄.next_outbox_id + 1;
    }
    → t ≡ recategorized c.id old
    → db' ≡ db₅
    → IsStored env old c db t db'
stored env old a c f t db db₃ db₄ db₅ db' h₃ h₄ found facts h₅ made last = record {
  account = a;
  facts = f;
  found = rw h₃ at found;
  described = rw made facts;
  changed = made;
  tables = cc;
}

module _ ⦃p : Python⦄ where
  store_category-ok :
      (env : Env) (old : Transaction) (o : Option Category) (c : Category) (db : Db)
      {t : Transaction} {db' : Db}
      → o ≡ some c
      → store_category env old o db ≡ (ok t, db')
      → IsStored env old c db t db'
  unfolding store_category
  store_category-ok env old none c db h e = cc
  store_category-ok env old (some d) c db {t = t} {db' = db'} h e =
      let (db₃, e₆, e₇) = exec-ok _ _ _ e in
      let (a, db₄, e₈, e₉) = bind-ok _ _ _ e₇ in
      let (same₄, found) = account_of-ok old db₃ e₈ in
      let (f, e₁₀, e₁₁) = lift-ok _ _ _ e₉ in
      let (db₅, e₁₂, e₁₃) = exec-ok _ _ _ e₁₁ in
      let (made, last) = pure-ok _ _ e₁₃ in
      rw (← some-injective _ _ h) (
        stored env old a d f t db db₃ db₄ db₅ db' (changed_row _ _ _ e₆) same₄ found
          (facts-ok _ _ _ e₁₀) (record_event-ok _ _ e₁₂) made last)

assemble :
    ⦃p : Python⦄ (env : Env) (user : ℕ) (name : Text) (db : Db) (old : Transaction) (c : Category)
    (t : Transaction) (db₁ db₂ db' : Db)
    → db₁ ≡ db
    → lookup old.id db.transactions ≡ some old
    → owned user (lookup old.account_id db.accounts) ≡ true
    → IsCategory db₁ name old.type c
    → db₂ ≡ db₁
    → IsStored env old c db₂ t db'
    → IsRecategorized env user name db t db'
assemble env user name db old c t db₁ db₂ db' h₁ present own chosen h₂ r =
    let here : lookup old.account_id db.accounts ≡ some r.account =
      ap (λ (d : Db). lookup old.account_id d.accounts) (sym (h₂ ∙ h₁)) ∙ r.found in
    record {
      old = old;
      account = r.account;
      category = c;
      facts = r.facts;
      present = present;
      found = here;
      owner = ground (arith, rw here at own);
      chosen = rw (← h₁) chosen;
      changed = r.changed;
      described = r.described;
      tables = rw (h₂ ∙ h₁) at r.tables;
    }

module _ ⦃p : Python⦄ where
  -- For keyed transactions, a recategorization that returns was given a name, gave the row of the
  -- user a category of the table with that name, for movements of the type of the row, as a manual
  -- choice, and recorded one event with the facts of the new row, the account's currency and the
  -- name of that category; no balance changed.
  pub recategorize-IsRecategorized :
      (env : Env) (user : ℕ) (id : Option ℕ) (name : Option Text) (db : Db) {t : Transaction}
      {db' : Db}
      → IsKeyed db.transactions
      → recategorize env user id name db ≡ (ok t, db')
      → (n : Text) × (name ≡ some n) × (id ≡ some t.id) × IsRecategorized env user n db t db'
  unfolding recategorize
  recategorize-IsRecategorized env user id none db keys e =
      let (old, db₁, _, e₂) = bind-ok _ _ _ (atomic-ok _ _ e) in
      let (given, _) = check-ok _ _ _ e₂ in let (n, h) = categorized-some none given in cc
  recategorize-IsRecategorized env user id (some n) db {t = t} {db' = db'} keys e =
      let (old, db₁, e₁, e₂) = bind-ok _ _ _ (atomic-ok _ _ e) in
      let (same₁, is, present, own) = get-ok user id db keys e₁ in
      let (_, e₃) = check-ok _ _ _ e₂ in
      let (o, db₂, e₄, e₅) = bind-ok _ _ _ e₃ in
      let (c, chosen, is_category) = resolve-category n old.type db₁ e₄ in
      let (same₂, _) = resolve-ok _ _ _ e₄ in
      let r = store_category-ok env old o c db₂ chosen e₅ in
      (
        n,
        refl,
        is ∙ ap (λ (x : Transaction). some x.id) (sym r.changed),
        assemble env user n db old c t db₁ db₂ db' same₁ present own is_category same₂ r,
      )
