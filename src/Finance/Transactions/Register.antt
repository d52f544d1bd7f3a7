-- ===== src/Finance/Transactions/Register.antt =====
-- What a successful `register_transaction` did to the tables.
use mathlib.Core.Option.{some-injective}
use finty.Base.{
  ℕ, ◌+◌, ◌≡◌, refl, ◌∙◌, ap, sym, subst, true, false, Option, none, some, [], ◌∷◌, ◌++◌, arith,
}
use finty.Base.Int.{ℤ, pos, ◌+ℤ◌, ◌<ℤ◌, ltb_ℤ}
use finty.Base.Table.{lookup, update, IsKeyed}
use finty.Base.Text.{Text}
use finty.Shared.Errors.{ok}
use finty.Shared.Python.{Python}
use finty.Shared.Currency.{RawText, text, validate_currency_code}
use finty.Shared.Money.{Money}
use finty.Finance.ValueObjects.{
  AccountType, TransactionType, CategorizationSource, Float, transaction_type_from_value, Raw,
  AccountSnapshot, TransactionDraft, allows_negative_balance,
}
use finty.Finance.Logic.{ensure_balance_allowed}
use finty.Finance.Logic.Balance.{signed, apply-ok}
use finty.Finance.Builders.{Categorizer}
use finty.Finance.Builders.Draft.{IsDraft}
use finty.Finance.Events.{transaction_manually_added, TransactionFacts, event}
use finty.Finance.Store.{Account, Transaction, Category, Db, account_row, transaction_row, is_set}
use finty.Finance.Store.Effects.{pending, insert_transaction-ok, set_balance-ok, record_event-ok}
use finty.Finance.Session.{bind-ok, lift-ok, exec-ok, check-ok, pure-ok, atomic-ok}
use finty.Finance.Translate.{Amount, as_money, Env, draft_to_columns}
use finty.Finance.Translate.Inverse.{
  IsSnapshot, build_snapshot-ok, build_snapshot-currency, transaction_draft-IsDraft,
}
use finty.Finance.Translate.Drafted.{IsChosen, cleaned, IsRequested, transaction_draft-IsRequested}
use finty.Finance.Accounts.Fetch.{fetch-ok}
use finty.Finance.Transactions.{register_transaction, resolve_category}
use finty.Finance.Transactions.Facts.{AreFacts, facts-ok, IsCategory, resolve-category, resolve-ok}

-- The user's active account took the new row: its balance moved by the signed amount and is
-- allowed, and one event with the facts of the row was recorded. Nothing else changed.
pub record IsRegistered ⦃p : Python⦄ (env : Env) (user : ℕ) (db : Db) (t : Transaction) (db' : Db)
    : Type 0 where
  pub account : Account
  pub category : Category
  pub facts : TransactionFacts
  pub found : lookup account.id db.accounts ≡ some account
  pub owner : account.user_id ≡ user
  pub active : account.is_archived ≡ false
  pub linked : t.account_id ≡ account.id
  pub fresh : lookup t.id db.transactions ≡ none
  pub positive : pos 0 <ℤ t.amount
  pub classified : t.category_id ≡ some category.id
  pub categorized : is_set t.category_id ≡ is_set t.categorization_source
  pub balance : ℤ
  pub moved : balance ≡ account.balance +ℤ signed t.type t.amount
  pub allowed : ltb_ℤ balance (pos 0) ≡ true → allows_negative_balance account.type ≡ true
  pub described : AreFacts t account (some category) facts
  pub tables : db' ≡ record db {
    accounts = update account.id (λ a. record a { balance = balance }) db.accounts;
    transactions = db.transactions ++ (t ∷ []);
    outbox =
        db.outbox
        ++ (pending db.next_outbox_id (event transaction_manually_added facts env.now env.event_id)
            ∷ []);
    next_outbox_id = db.next_outbox_id + 1;
  }

-- The row is the one that the call asks for, in the account that it names: under the new identifier
-- and at the instant of the call, with the amount, the type, the day and the stripped description that
-- were given, and with the category that was given or else suggested, which is one of the table for
-- the type.
pub record IsAsked ⦃p : Python⦄ (categorizer : Categorizer) (env : Env) (id : Option ℕ)
    (amount : Amount) (kind : Raw TransactionType) (day : ℕ) (description : Option Text)
    (given : Option RawText) (db : Db) (t : Transaction) (account : Account) (category : Category)
    : Type 0 where
  pub currency : Text
  pub paid : Money
  pub name : Text
  pub source : CategorizationSource
  pub confidence : Float
  pub in_account : id ≡ some account.id
  pub identifier : t.id ≡ env.new_id
  pub created : t.created_at ≡ env.now
  pub valid : validate_currency_code (text account.currency) ≡ ok currency
  pub money : as_money amount (text currency) ≡ ok paid
  pub costs : t.amount ≡ paid.amount
  pub type : transaction_type_from_value kind ≡ ok t.type
  pub at_day : t.occurred_on ≡ day
  pub described : t.description ≡ cleaned description
  pub sourced : t.categorization_source ≡ some source
  pub sure : t.categorization_confidence ≡ some confidence
  pub chosen : IsChosen categorizer given t.description paid t.type name source confidence
  pub listed : IsCategory db name t.type category

pub allowed-ok :
    (t : AccountType) (m : Money)
    → ensure_balance_allowed t m ≡ ok tt
    → ltb_ℤ m.amount (pos 0) ≡ true
    → allows_negative_balance t ≡ true
unfolding ensure_balance_allowed
allowed-ok t m e h = ground arith

category-id :
    (c : Option Category) (k : Category)
    → c ≡ some k
    → elim c [ none ↦ none | some x ↦ some x.id ] ≡ some k.id
category-id none k e = cc
category-id (some x) k e = ap (λ (y : Category). some y.id) (some-injective _ _ e)

category-set :
    (c : Option Category) → is_set (elim c [ none ↦ none | some x ↦ some x.id ]) ≡ is_set c
category-set none = refl
category-set (some x) = refl

asked :
    ⦃p : Python⦄ (categorizer : Categorizer) (env : Env) (id : Option ℕ) (amount : Amount)
    (kind : Raw TransactionType) (day : ℕ) (description : Option Text) (given : Option RawText)
    (db db₁ : Db) (a : Account) (s : AccountSnapshot) (d : TransactionDraft) (c : Option Category)
    (k : Category) {t : Transaction}
    (r : IsRequested categorizer s amount kind day description given d)
    → db₁ ≡ db
    → id ≡ some a.id
    → validate_currency_code (text a.currency) ≡ ok s.currency
    → IsCategory db₁ r.name d.transaction_type k
    → t ≡ draft_to_columns d a c env
    → IsAsked categorizer env id amount kind day description given db t a k
unfolding draft_to_columns
asked categorizer env id amount kind day description given db db₁ a s d c k r same named valid
      listed made =
    record {
      currency = s.currency;
      paid = d.amount;
      name = r.name;
      source = r.source;
      confidence = r.confidence;
      in_account = named;
      identifier = rw made refl;
      created = rw made refl;
      valid = valid;
      money = r.paid;
      costs = rw made refl;
      type = rw made r.type;
      at_day = rw made r.at_day;
      described = rw made r.described;
      sourced = rw made r.sourced;
      sure = rw made r.sure;
      chosen = rw made r.chosen;
      listed = rw (made, ← same) listed;
    }

-- The steps of the call, put together.
assemble :
    ⦃p : Python⦄ (env : Env) (user : ℕ) (db : Db) (a : Account) (s : AccountSnapshot)
    (d : TransactionDraft) (m : Money) (c : Option Category) (k : Category) (f : TransactionFacts)
    (db₁ db₂ db₃ db₄ db₅ : Db) {t : Transaction} {db' : Db}
    → db₁ ≡ db
    → a.user_id ≡ user
    → lookup a.id db.accounts ≡ some a
    → IsSnapshot a s
    → IsDraft s d
    → m.amount ≡ s.balance.amount +ℤ signed d.transaction_type d.amount.amount
    → ensure_balance_allowed s.account_type m ≡ ok tt
    → db₂ ≡ db₁
    → is_set c ≡ is_set d.category_name
    → c ≡ some k
    → db₃ ≡ record db₂ { transactions = db₂.transactions ++ (draft_to_columns d a c env ∷ []) }
    → lookup (draft_to_columns d a c env).id db₂.transactions ≡ none
    → db₄
      ≡ record db₃ { accounts = update a.id (λ x. record x { balance = m.amount }) db₃.accounts }
    → AreFacts (draft_to_columns d a c env) a c f
    → db₅ ≡ record db₄ {
      outbox =
          db₄.outbox
          ++ (pending db₄.next_outbox_id (event transaction_manually_added f env.now env.event_id)
              ∷ []);
      next_outbox_id = db₄.next_outbox_id + 1;
    }
    → t ≡ draft_to_columns d a c env
    → db' ≡ db₅
    → (Q : Account → Category → Type 0) → Q a k
    → (r : IsRegistered env user db t db') × Q r.account r.category
unfolding draft_to_columns
assemble env user db a s d m c k f db₁ db₂ db₃ db₄ db₅ h₁ owner found snap draft moved allowed h₂
      set some_k h₃ fresh h₄ facts h₅ made last Q q =
    (
      record {
        account = a;
        category = k;
        facts = f;
        found = found;
        owner = owner;
        active = sym snap.archived ∙ draft.active;
        linked = ap (λ x. x.account_id) made;
        fresh = rw (made, ← h₁, ← h₂) fresh;
        positive = rw made draft.positive;
        classified = ap (λ (x : Transaction). x.category_id) made ∙ category-id c k some_k;
        categorized = rw made (category-set c ∙ set ∙ draft.categorized);
        balance = m.amount;
        moved = rw made (rw (← snap.balance) moved);
        allowed = rw (← snap.type) (allowed-ok s.account_type m allowed);
        described = rw (made, ← some_k) facts;
        tables = cc;
      },
      q,
    )

module _ ⦃p : Python⦄ (categorizer : Categorizer) where
  -- For keyed accounts, a registration that returns took the active account of the identifier,
  -- which is the user's; its balance moved by the signed amount of the returned row and is
  -- allowed, and the row and one event with its facts, the account's currency and the name of its
  -- category were added; nothing else changed. The row has the new identifier, the instant of the
  -- call, and the amount, the type, the day and the stripped description that were given; its
  -- category is one of the table for the type, of the stripped name that was given, as a manual
  -- choice, or where none was given the one that the categorizer suggests for the row.
  pub register-IsRegistered :
      (env : Env) (user : ℕ) (id : Option ℕ) (amount : Amount) (kind : Raw TransactionType)
      (day : ℕ) (description : Option Text) (category : Option RawText) (db : Db) {t : Transaction}
      {db' : Db}
      → IsKeyed db.accounts
      → register_transaction categorizer env user id amount kind day description category db
        ≡ (ok t, db')
      → (r : IsRegistered env user db t db') × IsAsked categorizer env id amount kind day
          description category db t r.account r.category
  unfolding register_transaction
  register-IsRegistered env user id amount kind day description category db {t = t} keyed e =
      let (a, db₁, e₁, e₂) = bind-ok _ _ _ (atomic-ok _ _ e) in
      let (same, owner, named, found) = fetch-ok user id db keyed e₁ in
      let (s, e₃, e₄) = lift-ok _ _ _ e₂ in
      let (d, e₅, e₆) = lift-ok _ _ _ e₄ in
      let (m, e₇, e₈) = lift-ok _ _ _ e₆ in
      let (e₉, e₁₀) = check-ok _ _ _ e₈ in
      let (c, db₂, e₁₁, e₁₂) = bind-ok _ _ _ e₁₀ in
      let (db₃, e₁₃, e₁₄) = exec-ok _ _ _ e₁₂ in
      let (db₄, e₁₅, e₁₆) = exec-ok _ _ _ e₁₄ in
      let (f, e₁₇, e₁₈) = lift-ok _ _ _ e₁₆ in
      let (db₅, e₁₉, e₂₀) = exec-ok _ _ _ e₁₈ in
      let r =
        transaction_draft-IsRequested categorizer env.today s amount kind day description category
          e₅ in
      let (same₂, set) = resolve-ok _ _ _ e₁₁ in
      let (k, some_k, listed) =
        resolve-category r.name d.transaction_type db₁
          (subst (λ n. resolve_category n d.transaction_type db₁ ≡ (ok c, db₂)) r.named e₁₁) in
      let (same₃, fresh, _, _) = insert_transaction-ok _ _ e₁₃ in
      let (made, last) = pure-ok _ _ e₂₀ in
      assemble env user db a s d m c k f db₁ db₂ db₃ db₄ db₅ same owner found
        (build_snapshot-ok a e₃)
        (transaction_draft-IsDraft categorizer env.today s amount kind day description category e₅)
        (apply-ok _ _ _ e₇).0 e₉ same₂ set some_k same₃ fresh (set_balance-ok _ _ _ e₁₅).0
        (facts-ok _ _ _ e₁₇) (record_event-ok _ _ e₁₉) made last
        (IsAsked categorizer env id amount kind day description category db t)
        (asked categorizer env id amount kind day description category db db₁ a s d c k r same named
          (build_snapshot-currency a e₃) listed made)
