-- ===== src/Finance/Transactions/Undo.antt =====
-- A registration that is undone by its deletion.
use mathlib.Core.Option.{some-injective}
use finty.Base.{
  ℕ, ◌≡◌, refl, sym, ◌∙◌, ap, ap₂, Option, none, some, List, [], ◌∷◌, ◌++◌, ◌==◌, ==_refl, ==_iff,
  inl, inr, Bool-cases,
}
use finty.Base.Int.{ℤ, ◌+ℤ◌, +ℤ_cancel, ◌-ℤ◌}
use finty.Base.Table.{lookup, update, erase, IsKeyed, lookup-append, lookup-update}
use finty.Base.Text.{Text}
use finty.Shared.Errors.{ok}
use finty.Shared.Python.{Python}
use finty.Shared.Currency.{RawText}
use finty.Finance.ValueObjects.{TransactionType, Raw}
use finty.Finance.Logic.Balance.{signed}
use finty.Finance.Builders.{Categorizer}
use finty.Finance.Store.{Account, Transaction, Db, account_row, transaction_row}
use finty.Finance.Translate.{Amount, Env}
use finty.Finance.Transactions.{register_transaction, delete_transaction}
use finty.Finance.Transactions.Register.{IsRegistered, register-IsRegistered}
use finty.Finance.Transactions.Delete.{IsDeleted, delete-IsDeleted}
use finty.Base.Table.{update-IsKeyed, append-IsKeyed}

abbrev with_balance : ℤ → Account → Account
with_balance n a = record a { balance = n }

absent-update :
    (id : ℕ) (n k : ℤ) (m : List Account)
    → lookup id m ≡ none
    → update id (with_balance n) (update id (with_balance k) m) ≡ m
absent-update id n k [] e = refl
absent-update id n k (b ∷ m) e = elim (Bool-cases (b.id == id)) [
  | inl h ↦ cc (rw h at e)
  | inr h ↦ rw (h, h) (ap (λ r. b ∷ r) (absent-update id n k m (rw h at e)))
]

restored-accounts :
    (id : ℕ) (k : ℤ) (a : Account) (m : List Account)
    → IsKeyed m
    → lookup id m ≡ some a
    → update id (with_balance a.balance) (update id (with_balance k) m) ≡ m
restored-accounts id k a [] h e = cc
restored-accounts id k a (b ∷ m) (new, h) e = elim (Bool-cases (b.id == id)) [
  | inl here ↦
      let same : b ≡ a = some-injective _ _ (rw here at e) in
      let gone : lookup id m ≡ none = rw ((==_iff b.id id).0 here) at new in
      rw (here, here)
        (ap₂ (λ n r. with_balance n b ∷ r) (ap (λ (x : Account). x.balance) (sym same))
          (absent-update id a.balance k m gone))
  | inr there ↦ rw (there, there) (ap (λ r. b ∷ r) (restored-accounts id k a m h (rw there at e)))
]

restored-rows :
    (t : Transaction) (m : List Transaction) → lookup t.id m ≡ none → erase t.id (m ++ (t ∷ [])) ≡ m
restored-rows t [] e = rw (==_refl t.id) refl
restored-rows t (s ∷ m) e = elim (Bool-cases (s.id == t.id)) [
  | inl h ↦ cc (rw h at e)
  | inr h ↦ rw h (ap (λ r. s ∷ r) (restored-rows t m (rw h at e)))
]

cancel : (n b o s : ℤ) → n +ℤ s ≡ b → b ≡ o +ℤ s → n ≡ o
cancel n b o s h k = sym (+ℤ_cancel n s) ∙ ap (λ z. z -ℤ s) (h ∙ k) ∙ +ℤ_cancel o s

-- The tables after the two calls.
undone :
    ⦃p : Python⦄ (env env' : Env) (user user' : ℕ) (db db₁ db₂ : Db) (t t' : Transaction)
    → IsKeyed db.accounts
    → IsRegistered env user db t db₁
    → t.id ≡ t'.id
    → IsDeleted env' user' db₁ t' db₂
    → (db₂.accounts ≡ db.accounts) × (db₂.transactions ≡ db.transactions)
undone env env' user user' db db₁ db₂ t t' keyed r ids d =
    let a = r.account in
    let rows : db₁.transactions ≡ db.transactions ++ (t ∷ []) =
      ap (λ (x : Db). x.transactions) r.tables in
    let accounts : db₁.accounts ≡ update a.id (with_balance r.balance) db.accounts =
      ap (λ (x : Db). x.accounts) r.tables in
    let here : lookup t.id (db.transactions ++ (t ∷ [])) ≡ some t =
      rw (lookup-append t.id db.transactions t, r.fresh, ==_refl t.id) refl in
    let same : t ≡ t' = some-injective _ _ (
      sym here
      ∙ ap (λ m. lookup t.id m) (sym rows)
      ∙ ap (λ i. lookup i db₁.transactions) ids
      ∙ d.present) in
    let id : d.account.id ≡ a.id =
      sym d.linked ∙ ap (λ (x : Transaction). x.account_id) (sym same) ∙ r.linked in
    let balance : lookup a.id (update a.id (with_balance r.balance) db.accounts)
        ≡ some (with_balance r.balance a) =
      rw
        (
          lookup-update a.id a.id (with_balance r.balance) db.accounts (λ x. refl),
          ==_refl a.id,
          r.found,
        )
        refl in
    let account : with_balance r.balance a ≡ d.account = some-injective _ _ (
      sym balance
      ∙ ap (λ m. lookup a.id m) (sym accounts)
      ∙ ap (λ i. lookup i db₁.accounts) (sym id)
      ∙ d.found) in
    let back : d.balance ≡ a.balance =
      cancel d.balance r.balance a.balance (signed t.type t.amount)
        (ap (λ (x : Transaction). d.balance +ℤ signed x.type x.amount) same
          ∙ d.moved
          ∙ ap (λ (x : Account). x.balance) (sym account))
        r.moved in
    (
      ap (λ (x : Db). x.accounts) d.tables
          ∙ rw (id, back, accounts) (restored-accounts a.id r.balance a db.accounts keyed r.found),
      ap (λ (x : Db). x.transactions) d.tables
          ∙ rw (← same, rows) (restored-rows t db.transactions r.fresh),
    )

module _ ⦃p : Python⦄ (categorizer : Categorizer) where
  -- For keyed tables, where a transaction is registered and then deleted by its user, the
  -- accounts, with their balances, and the transactions are what they were before.
  pub delete-register :
      (env later : Env) (user : ℕ) (id : Option ℕ) (amount : Amount) (kind : Raw TransactionType)
      (day : ℕ) (description : Option Text) (category : Option RawText) (db : Db) {t : Transaction}
      {db₁ db₂ : Db}
      → IsKeyed db.accounts
      → IsKeyed db.transactions
      → register_transaction categorizer env user id amount kind day description category db
        ≡ (ok t, db₁)
      → delete_transaction later user (some t.id) db₁ ≡ (ok tt, db₂)
      → (db₂.accounts ≡ db.accounts) × (db₂.transactions ≡ db.transactions)
  delete-register env later user id amount kind day description category db {t = t} {db₁ = db₁}
        {db₂ = db₂} keyed keys e d =
      let r =
        (register-IsRegistered categorizer env user id amount kind day description category db keyed
          e).0 in
      let accounts : IsKeyed db₁.accounts =
        rw r.tables
          (update-IsKeyed r.account.id (with_balance r.balance) db.accounts (λ x. refl) keyed) in
      let rows : IsKeyed db₁.transactions =
        rw r.tables (append-IsKeyed db.transactions t keys r.fresh) in
      let (t', same, deleted) = delete-IsDeleted later user (some t.id) db₁ accounts rows d in
      undone env later user user db db₁ db₂ t t' keyed r (some-injective _ _ same) deleted
