-- ===== src/Finance/Audit/Repaired.antt =====
-- The tables after the repair of balances by the command `verify-invariants --fix`.
use mathlib.Core.Option
use finty.Base.{
  ℕ, ◌≡◌, refl, sym, ap, ◌∙◌, inl, inr, ⊤, Bool, true, false, Option, none, some, List, [], ◌∷◌,
  All, Bool-cases, ◌==◌, if◌then◌else◌, ==_refl, ==_iff, subst,
}
use finty.Base.Int.{ℤ, ◌+ℤ◌}
use finty.Base.Table.{lookup, update, lookup-update, update-IsKeyed, IsKeyed}
use finty.Shared.Errors.{Result, ok, err}
use finty.Shared.Python.{Python}
use finty.Finance.Store.{Account, Db, account_row}
use finty.Finance.Accounts.{BalanceAuditResult}
use finty.Finance.Accounts.Recompute.{IsRecomputed, recompute-IsRecomputed}
use finty.Finance.Invariant.{total}
use finty.Finance.Audit.{repaired, repair_all}
use finty.Finance.Audit.Silent.{IsBalanced}

-- The account of an identifier, if there is one, is balanced.
abbrev pub IsBalancedAt : Db → ℕ → Type 0
IsBalancedAt db k = (a : Account) → lookup k db.accounts ≡ some a → IsBalanced db.transactions a

-- The owner of the account of an identifier.
abbrev pub owner_at : Db → ℕ → Option ℕ
owner_at db k = Option.map (λ (a : Account). a.user_id) (lookup k db.accounts)

-- What repairs keep of the tables.
pub record IsRepaired (db db' : Db) : Type 0 where
  pub keyed : IsKeyed db'.accounts
  pub rows : db'.transactions ≡ db.transactions
  pub owners : (k : ℕ) → owner_at db' k ≡ owner_at db k
  pub balanced : (k : ℕ) → IsBalancedAt db k → IsBalancedAt db' k

IsRepaired-refl : (db : Db) → IsKeyed db.accounts → IsRepaired db db
IsRepaired-refl db keyed = record {
  keyed = keyed;
  rows = refl;
  owners = λ k. refl;
  balanced = λ k h. h;
}

IsRepaired-trans : (db db₁ db₂ : Db) → IsRepaired db db₁ → IsRepaired db₁ db₂ → IsRepaired db db₂
IsRepaired-trans db db₁ db₂ h g = record {
  keyed = g.keyed;
  rows = g.rows ∙ h.rows;
  owners = λ k. g.owners k ∙ h.owners k;
  balanced = λ k b. g.balanced k (h.balanced k b);
}

abbrev with_balance : ℤ → Account → Account
with_balance n a = record a { balance = n }

map-owner :
    (n : ℤ) (found : Option Account)
    → Option.map (λ (a : Account). a.user_id) (Option.map (with_balance n) found)
      ≡ Option.map (λ (a : Account). a.user_id) found
map-owner n none = refl
map-owner n (some a) = refl

owner-if :
    (b : Bool) (n : ℤ) (found : Option Account)
    → Option.map
        (λ (a : Account). a.user_id)
        (if b then Option.map (with_balance n) found else found)
      ≡ Option.map (λ (a : Account). a.user_id) found
owner-if true n found = map-owner n found
owner-if false n found = refl

-- The tables after the balance of an account was set.
abbrev stored : ℕ → ℤ → Db → Db
stored k n db = record db { accounts = update k (with_balance n) db.accounts }

stored-IsBalancedAt :
    (a : Account) (n : ℤ) (db : Db)
    → lookup a.id db.accounts ≡ some a
    → n ≡ a.opening_balance +ℤ total a.id db.transactions
    → IsBalancedAt (stored a.id n db) a.id
stored-IsBalancedAt a n db found exact b e =
    let moved = lookup-update a.id a.id (with_balance n) db.accounts (λ x. refl) in
    let same : some (with_balance n a) ≡ some b = sym (rw (==_refl a.id, found) at moved) ∙ e in
    let made : with_balance n a ≡ b = cc same in subst (IsBalanced db.transactions) made exact

stored-IsRepaired :
    (a : Account) (n : ℤ) (db : Db)
    → IsKeyed db.accounts
    → lookup a.id db.accounts ≡ some a
    → n ≡ a.opening_balance +ℤ total a.id db.transactions
    → IsRepaired db (stored a.id n db)
stored-IsRepaired a n db keyed found exact = record {
  keyed = update-IsKeyed a.id (with_balance n) db.accounts (λ x. refl) keyed;
  rows = refl;
  owners = λ k.
      ap (Option.map (λ (x : Account). x.user_id))
        (lookup-update k a.id (with_balance n) db.accounts (λ x. refl))
      ∙ owner-if (k == a.id) n (lookup k db.accounts);
  balanced = λ k h b e. elim (Bool-cases (k == a.id)) [
    | inl y ↦
        subst (IsBalancedAt (stored a.id n db)) (sym ((==_iff k a.id).0 y))
          (stored-IsBalancedAt a n db found exact) b e
    | inr z ↦
        let moved =
          lookup-update ⦃r = account_row⦄ k a.id (with_balance n) db.accounts (λ x. refl) in
        h b (sym (rw z at moved) ∙ e)
  ];
}

module _ ⦃p : Python⦄ where
  recomputed-IsRepaired :
      (user : ℕ) (id : Option ℕ) (db : Db) {b : Account} {db' : Db}
      → IsKeyed db.accounts
      → IsRecomputed user id db b db'
      → IsRepaired db db'
  recomputed-IsRepaired user id db keyed h =
      rw h.tables (stored-IsRepaired h.account h.balance db keyed h.found h.exact)

  recomputed-IsBalancedAt :
      (user k : ℕ) (db : Db) {b : Account} {db' : Db}
      → IsRecomputed user (some k) db b db'
      → IsBalancedAt db' k
  recomputed-IsBalancedAt user k db h =
      let same : k ≡ h.account.id = cc h.named in
      rw (h.tables, same) (stored-IsBalancedAt h.account h.balance db h.found h.exact)

  repaired-ok :
      {A : Type 0} (r : Result Account × Db) (rest : Db → Result A × Db) {x : A} {db' : Db}
      → repaired r rest ≡ (ok x, db')
      → (a : Account) × (db₁ : Db) × (r ≡ (ok a, db₁)) × (rest db₁ ≡ (ok x, db'))
  unfolding repaired
  repaired-ok (err e, db) rest h = absurd (cc h)
  repaired-ok (ok a, db) rest h = (a, db, refl, h)

  pub repair_all-IsRepaired :
      (rs : List BalanceAuditResult) (db : Db) {x : ⊤} {db' : Db}
      → IsKeyed db.accounts
      → repair_all rs db ≡ (ok x, db')
      → IsRepaired db db' × All (λ (r : BalanceAuditResult). IsBalancedAt db' r.account.id) rs
  unfolding repair_all
  repair_all-IsRepaired [] db {db' = db'} keyed e =
      let same : db ≡ db' = cc e in (subst (IsRepaired db) same (IsRepaired-refl db keyed), tt)
  repair_all-IsRepaired (r ∷ rs) db {db' = db'} keyed e =
      let (a, db₁, e₁, e₂) = repaired-ok _ _ e in
      let h = recompute-IsRecomputed r.account.user_id (some r.account.id) db keyed e₁ in
      let first = recomputed-IsRepaired r.account.user_id (some r.account.id) db keyed h in
      let (rest, all) = repair_all-IsRepaired rs db₁ first.keyed e₂ in
      (
        IsRepaired-trans db db₁ db' first rest,
        (
          rest.balanced r.account.id (recomputed-IsBalancedAt r.account.user_id r.account.id db h),
          all,
        ),
      )
