-- ===== src/Finance/Audit/Fixed.antt =====
-- What the command `verify-invariants --fix` says after its repair.
use mathlib.Core.Option
use finty.Base.{
  ℕ, ◌≡◌, refl, sym, ap, ◌∙◌, inl, inr, ⊤, Bool, true, not, Option, none, some, List, [], ◌∷◌, All,
  All-map, Bool-cases, Option-cases, keep, ◌==◌, subst,
}
use finty.Base.Table.{lookup, IsKeyed, key-lookup}
use finty.Shared.Errors.{Result, ok, err, >>=-eq-ok, ok-injective, Result-cases}
use finty.Shared.Python.{Python, HasCapitals}
use finty.Finance.Store.{Account, Transaction, Db, account_row}
use finty.Finance.Accounts.{
  BalanceAuditResult, is_consistent, in_scope, audit_account, audit_all, audit_balances,
}
use finty.Finance.Audit.{
  Verdict, deviations, verdict, repair_all, audited, after_repair, decide, from_audit,
  verify_invariants,
}
use finty.Finance.Audit.Silent.{
  IsBalanced, audit_account_iff, deviations-All_iff, exit_of_iff, All-of_lookup,
}
use finty.Finance.Audit.Repaired.{IsBalancedAt, IsRepaired, repair_all-IsRepaired}

-- The parts of what holds of all the elements that a test keeps.
All-keep_cons :
    {A : Type 0} (Q : A → Type 0) (test : A → Bool) (x : A) (xs : List A)
    → All Q (keep test (x ∷ xs))
    → (test x ≡ true → Q x) × All Q (keep test xs)
All-keep_cons Q test x xs h = elim (Bool-cases (test x)) [
  | inl y ↦ let both = rw y at h in (λ _. both.0, both.1)
  | inr z ↦ (λ y. absurd (cc), rw z at h)
]

module _ ⦃p : Python⦄ where
  audit_account-account :
      (a : Account) (rows : List Transaction) {r : BalanceAuditResult}
      → audit_account a rows ≡ ok r
      → r.account ≡ a
  unfolding audit_account
  audit_account-account a rows e =
      let (persisted, e₁, e₂) = >>=-eq-ok _ _ e in
      let (calculated, e₃, e₄) = >>=-eq-ok _ _ e₂ in
      ap (λ (r : BalanceAuditResult). r.account) (sym (ok-injective e₄))

  -- What holds of the balanced accounts and of those of the deviations holds of all that were
  -- audited.
  audited-All :
      (Q : Account → Type 0) (accounts : List Account) (rows : List Transaction)
      {rs : List BalanceAuditResult}
      → HasCapitals p
      → audit_all accounts rows ≡ ok rs
      → ((a : Account) → IsBalanced rows a → Q a)
      → All (λ (r : BalanceAuditResult). Q r.account) (deviations rs)
      → All Q accounts
  unfolding audit_all audit_account
  audited-All Q [] rows capitals e balanced off = tt
  audited-All Q (a ∷ accounts) rows capitals e balanced off =
      let (r, e₁, e₂) = >>=-eq-ok _ _ e in
      let (rest, e₃, e₄) = >>=-eq-ok _ _ e₂ in
      let same = audit_account-account a rows e₁ in
      let parts =
        All-keep_cons (λ (x : BalanceAuditResult). Q x.account) (λ x. not (is_consistent x)) r rest
          (subst (λ l. All (λ (x : BalanceAuditResult). Q x.account) (deviations l))
            (sym (ok-injective e₄)) off) in
      (
        elim (Bool-cases (is_consistent r)) [
          | inl y ↦ balanced a ((audit_account_iff capitals a rows e₁).0 y)
          | inr z ↦ subst Q same (parts.0 (rw z refl))
        ],
        audited-All Q accounts rows capitals e₃ balanced parts.1,
      )

keep-All :
    (Q : Account → Type 0) (test : Account → Bool) (m : List Account)
    → All (λ a. test a ≡ true → Q a) m
    → All Q (keep test m)
keep-All Q test [] h = tt
keep-All Q test (a ∷ m) (one, h) = elim (Bool-cases (test a)) [
  | inl y ↦ rw y (one y, keep-All Q test m h)
  | inr z ↦ rw z (keep-All Q test m h)
]

keep-lookup :
    (Q : Account → Type 0) (test : Account → Bool) (m : List Account) (k : ℕ) {a : Account}
    → All Q (keep test m)
    → lookup k m ≡ some a
    → test a ≡ true
    → Q a
keep-lookup Q test [] k h e t = absurd (cc e)
keep-lookup Q test (b ∷ m) k {a = a} h e t = elim (Bool-cases (b.id == k)) [
  | inl y ↦
      let same : b ≡ a = cc (rw y at e) in
      subst Q same ((All-keep_cons Q test b m h).0 (rw (← same) at t))
  | inr z ↦ keep-lookup Q test m k (All-keep_cons Q test b m h).1 (rw z at e) t
]

in_scope-owner :
    (user : Option ℕ) (a b : Account) → a.user_id ≡ b.user_id → in_scope user a ≡ in_scope user b
in_scope-owner none a b e = refl
in_scope-owner (some u) a b e = ap (λ x. x == u) e

-- An account that is there after repairs had the same owner before.
owner-before :
    (db db' : Db) (k : ℕ) (b : Account)
    → IsRepaired db db'
    → lookup k db'.accounts ≡ some b
    → (a : Account) × (lookup k db.accounts ≡ some a) × (a.user_id ≡ b.user_id)
owner-before db db' k b h e = elim (Option-cases (lookup k db.accounts)) [
  | inl z ↦
      let lost : some b.user_id ≡ none =
        sym (ap (Option.map (λ (x : Account). x.user_id)) e)
        ∙ h.owners k
        ∙ ap (Option.map (λ (x : Account). x.user_id)) z in
      absurd (cc lost)
  | inr (a, y) ↦
      let same : some b.user_id ≡ some a.user_id =
        sym (ap (Option.map (λ (x : Account). x.user_id)) e)
        ∙ h.owners k
        ∙ ap (Option.map (λ (x : Account). x.user_id)) y in
      (a, y, cc same)
]

-- Tables that came from others by the repair of the deviations, so that what was balanced is so
-- still: each account in the scope is balanced.
repaired-All :
    ⦃p : Python⦄ (user : Option ℕ) (db db' : Db) {rs : List BalanceAuditResult}
    → HasCapitals p
    → audit_balances user db ≡ ok rs
    → IsRepaired db db'
    → All (λ (r : BalanceAuditResult). IsBalancedAt db' r.account.id) (deviations rs)
    → All (IsBalanced db'.transactions) (keep (in_scope user) db'.accounts)
unfolding audit_balances
repaired-All user db db' {rs = rs} capitals e h off =
    let audited =
      audited-All (λ a. lookup a.id db.accounts ≡ some a → IsBalancedAt db' a.id)
        (keep (in_scope user) db.accounts) db.transactions capitals e
        (λ a balanced found. h.balanced a.id (λ b there.
          let same : a ≡ b = cc (sym found ∙ there) in
          subst (IsBalanced db.transactions) same balanced))
        (All-map (λ (r : BalanceAuditResult). IsBalancedAt db' r.account.id)
          (λ r. lookup r.account.id db.accounts ≡ some r.account → IsBalancedAt db' r.account.id)
          (λ r h _. h) (deviations rs) off) in
    keep-All (IsBalanced db'.transactions) (in_scope user) db'.accounts (
      All-of_lookup (λ b. in_scope user b ≡ true → IsBalanced db'.transactions b) db'.accounts
        h.keyed
        (λ k b there inside.
          let (a, found, owner) = owner-before db db' k b h there in
          let here : a.id ≡ k = key-lookup k db.accounts a found in
          keep-lookup (λ x. lookup x.id db.accounts ≡ some x → IsBalancedAt db' x.id)
            (in_scope user) db.accounts k audited found (in_scope-owner user a b owner ∙ inside)
            (rw here found) b (rw here there)))

-- How the command ends after its repair.
repaired-verdict :
    ⦃p : Python⦄ (user : Option ℕ) (db after : Db) {rs : List BalanceAuditResult} {x : ⊤}
    {v : Verdict} (db' : Db)
    → HasCapitals p
    → IsKeyed db.accounts
    → audit_balances user db ≡ ok rs
    → repair_all (deviations rs) db ≡ (ok x, db')
    → audited user db' (audit_balances user db') ≡ (ok v, after)
    → (v.exit_code ≡ 0)
      × All (IsBalanced after.transactions) (keep (in_scope user) after.accounts)
      × (after.transactions ≡ db.transactions)
unfolding audit_balances audited
repaired-verdict user db after {v = v} db' capitals keyed e e₁ h =
    let (kept, off) = repair_all-IsRepaired _ db keyed e₁ in
    let balanced = repaired-All user db db' capitals e kept off in
    elim (Result-cases (audit_balances user db')) [
      | inr (x, y) ↦ absurd (cc (rw y at h))
      | inl (rs, y) ↦
          let whole : (ok (verdict user (deviations rs) db'), db') ≡ (ok v, after) = rw y at h in
          let made : verdict user (deviations rs) db' ≡ v = cc whole in
          let same : db' ≡ after = cc whole in
          let none_off =
            (deviations-All_iff capitals (keep (in_scope user) db'.accounts) db'.transactions y).1
              balanced in
          (
            rw (← made) ((exit_of_iff (deviations rs)).1 none_off),
            subst (λ d. All (IsBalanced d.transactions) (keep (in_scope user) d.accounts)) same
                balanced,
            rw (← same) kept.rows,
          )
    ]

-- Without deviations, the repair of none of them.
decide-repair :
    ⦃p : Python⦄ (user : Option ℕ) (db : Db) (rs ds : List BalanceAuditResult)
    → audit_balances user db ≡ ok rs
    → deviations rs ≡ ds
    → decide true user ds db ≡ after_repair user (repair_all ds db)
unfolding decide after_repair repair_all audited
decide-repair user db rs [] e none_off =
    sym (ap (audited user db) e ∙ ap (λ l. (ok (verdict user l db), db)) none_off)
decide-repair user db rs (d ∷ ds) e off = refl

after_repair-ok :
    ⦃p : Python⦄ (user : Option ℕ) (r : Result ⊤ × Db) {v : Verdict} {after : Db}
    → after_repair user r ≡ (ok v, after)
    → (x : ⊤) × (db : Db) × (r ≡ (ok x, db))
      × (audited user db (audit_balances user db) ≡ (ok v, after))
unfolding after_repair
after_repair-ok user (err e, db) h = absurd (cc h)
after_repair-ok user (ok x, db) h = (x, db, refl, h)

-- For keyed accounts, and where upper case never gives a small ASCII letter: where the command
-- with its repair ends, whatever the balances were, it ends with code 0, the balance of every
-- account in its scope is the opening balance plus the signed rows of the account, and the rows
-- are as they were.
pub verify-repairs :
    ⦃p : Python⦄ (user : Option ℕ) (db : Db) {v : Verdict} {after : Db}
    → HasCapitals p
    → IsKeyed db.accounts
    → verify_invariants true user db ≡ (ok v, after)
    → (v.exit_code ≡ 0)
      × All (IsBalanced after.transactions) (keep (in_scope user) after.accounts)
      × (after.transactions ≡ db.transactions)
unfolding verify_invariants from_audit
verify-repairs user db {after = after} capitals keyed h =
    elim (Result-cases (audit_balances user db)) [
      | inr (x, e) ↦ absurd (cc (rw (e, from_audit) at h))
      | inl (rs, e) ↦
          let repairs =
            sym (decide-repair user db rs (deviations rs) e refl) ∙ (rw (e, from_audit) at h) in
          let (x, db', e₁, e₂) = after_repair-ok user (repair_all (deviations rs) db) repairs in
          repaired-verdict user db after db' capitals keyed e e₁ e₂
    ]
