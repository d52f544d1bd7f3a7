-- ===== src/Finance/Audit/Silent.antt =====
-- The audit of tables where the invariants hold.
use finty.Base.{
  ℕ, ◌≡◌, refl, sym, ap, ◌∙◌, inl, inr, ◌↔◌, Bool, true, false, not, ◌&&◌, ◌||◌, Option, none, some,
  List, [], ◌∷◌, arith, All, All-keep, Bool-cases, keep, ==_refl,
}
use finty.Base.Int.{ℤ, ◌+ℤ◌, eqb_ℤ_iff}
use finty.Base.Table.{lookup, IsKeyed}
use finty.Base.Text.{Text, text_eq_iff}
use finty.Shared.Errors.{ok, >>=-eq-ok, >>-eq-ok, ok-injective, Result-cases}
use finty.Shared.Python.{Python, HasCapitals}
use finty.Shared.Currency.{IsCode, text, validate_currency_code, validate-code, validate-IsCode}
use finty.Shared.Money.{Money, money, cents, add, subtract, money_eq}
use finty.Shared.Money.Laws.{money-ok}
use finty.Finance.ValueObjects.{TransactionType, income, expense}
use finty.Finance.Logic.{apply, recompute}
use finty.Finance.Store.{Category, Account, Transaction, Db, account_row}
use finty.Finance.Builders.{Categorizer}
use finty.Finance.Commands.{Call, empty, run_all}
use finty.Finance.Commands.Reachable.{run_all-IsValid}
use finty.Finance.Accounts.{
  BalanceAuditResult, is_consistent, in_scope, of_account, calculate, audit_account, audit_all,
  audit_balances,
}
use finty.Finance.Accounts.Calculate.{calculate-ok, row_sum-keep}
use finty.Finance.Invariant.{total, exists, IsSound, IsValid}
use finty.Finance.Audit.{
  CategorizationAuditResult, is_incoherent, finding_of, findings_in, audit_categorization, Verdict,
  deviations, verdict, exit_of, decide, from_audit, verify_invariants,
}

module _ ⦃p : Python⦄ where
  money-fixed :
      (n : ℤ) (c : Text) {m : Money} → IsCode c → money (cents n) (text c) ≡ ok m → m.currency ≡ c
  money-fixed n c k e = ok-injective (sym (money-ok n c e).2 ∙ validate-code c k)

  apply-currency :
      (b a : Money) (t : TransactionType) {m : Money}
      → IsCode b.currency
      → apply b a t ≡ ok m
      → m.currency ≡ b.currency
  unfolding apply add subtract
  apply-currency b a income k e = money-fixed _ b.currency k (>>-eq-ok _ _ e).1
  apply-currency b a expense k e = money-fixed _ b.currency k (>>-eq-ok _ _ e).1

  recompute-currency :
      (b : Money) (ms : List (Money × TransactionType)) {m : Money}
      → IsCode b.currency
      → recompute b ms ≡ ok m
      → m.currency ≡ b.currency
  unfolding recompute
  recompute-currency b [] k e = ap (λ (x : Money). x.currency) (sym (ok-injective e))
  recompute-currency b ((a, t) ∷ ms) k e =
      let (next, e₁, e₂) = >>=-eq-ok _ _ e in
      let same = apply-currency b a t k e₁ in recompute-currency next ms (rw same k) e₂ ∙ same

  calculate-currency :
      (a : Account) (rows : List Transaction) {c : Text} {m : Money}
      → IsCode c
      → validate_currency_code (text a.currency) ≡ ok c
      → calculate a rows ≡ ok m
      → m.currency ≡ c
  unfolding calculate
  calculate-currency a rows k valid e =
      let (ms, e₁, e₂) = >>=-eq-ok _ _ e in
      let (opening, e₃, e₄) = >>=-eq-ok _ _ e₂ in
      let same : opening.currency ≡ _ =
        ok-injective (sym (money-ok a.opening_balance a.currency e₃).2 ∙ valid) in
      recompute-currency opening ms (rw same k) e₄ ∙ same

-- The balance of an account is its opening balance plus its signed rows.
abbrev pub IsBalanced : List Transaction → Account → Type 0
IsBalanced rows a = a.balance ≡ a.opening_balance +ℤ total a.id rows

money_eq_iff :
    (a b : Money) → a.currency ≡ b.currency → (money_eq a b ≡ true) ↔ (a.amount ≡ b.amount)
money_eq_iff a b same = (
  λ e. (eqb_ℤ_iff a.amount b.amount).0 (ground arith),
  λ e. rw ((eqb_ℤ_iff a.amount b.amount).1 e) ((text_eq_iff a.currency b.currency).1 same),
)

module _ ⦃p : Python⦄ (capitals : HasCapitals p) where
  -- What the audit says of an account is whether it is balanced.
  pub audit_account_iff :
      (a : Account) (rows : List Transaction) {r : BalanceAuditResult}
      → audit_account a rows ≡ ok r
      → (is_consistent r ≡ true) ↔ IsBalanced rows a
  unfolding audit_account
  audit_account_iff a rows {r = r} e =
      let (persisted, e₁, e₂) = >>=-eq-ok _ _ e in
      let (calculated, e₃, e₄) = >>=-eq-ok _ _ e₂ in
      let (held, _, valid) = money-ok a.balance a.currency e₁ in
      let code = (validate-IsCode a.currency capitals valid).1 in
      let currencies = sym (calculate-currency a (keep (of_account a.id) rows) code valid e₃) in
      let exact =
        calculate-ok a (keep (of_account a.id) rows) e₃
        ∙ ap (λ z. a.opening_balance +ℤ z) (row_sum-keep a.id rows) in
      let (there, back) = money_eq_iff persisted calculated currencies in
      rw (← ok-injective e₄)
        (λ same. sym held ∙ there same ∙ exact, λ balanced. back (held ∙ balanced ∙ sym exact))

  pub deviations-All_iff :
      (accounts : List Account) (rows : List Transaction) {rs : List BalanceAuditResult}
      → audit_all accounts rows ≡ ok rs
      → (deviations rs ≡ []) ↔ All (IsBalanced rows) accounts
  unfolding audit_all
  deviations-All_iff [] rows e = rw (← ok-injective e) (λ _. tt, λ _. refl)
  deviations-All_iff (a ∷ accounts) rows e =
      let (r, e₁, e₂) = >>=-eq-ok _ _ e in
      let (rest, e₃, e₄) = >>=-eq-ok _ _ e₂ in
      let (there, back) = audit_account_iff a rows e₁ in
      let (all, nothing) = deviations-All_iff accounts rows e₃ in
      rw (← ok-injective e₄) (elim (Bool-cases (is_consistent r)) [
        | inl y ↦ rw y (λ h. (there y, all h), λ h. nothing h.1)
        | inr n ↦ rw n (λ h. absurd (cc h), λ h. absurd (cc (sym n ∙ back h.0)))
      ])

pub exit_of_iff : (rs : List BalanceAuditResult) → (exit_of rs ≡ 0) ↔ (rs ≡ [])
exit_of_iff [] = (λ _. refl, λ _. refl)
exit_of_iff (r ∷ rs) = (λ e. absurd (omega arith), λ e. absurd (cc e))

decide-false :
    ⦃p : Python⦄ (user : Option ℕ) (rs : List BalanceAuditResult) (db : Db)
    → decide false user rs db ≡ (ok (verdict user rs db), db)
unfolding decide
decide-false user [] db = refl
decide-false user (r ∷ rs) db = refl

-- Where upper case never gives a small ASCII letter, the command without a repair leaves the
-- tables as they are, and where it ends it ends with code 0 exactly when the balance of every
-- account in its scope is the opening balance plus the signed rows of the account.
pub verify-exact :
    ⦃p : Python⦄ (user : Option ℕ) (db : Db) {v : Verdict} {after : Db}
    → HasCapitals p
    → verify_invariants false user db ≡ (ok v, after)
    → (after ≡ db)
      × ((v.exit_code ≡ 0) ↔ All (IsBalanced db.transactions) (keep (in_scope user) db.accounts))
unfolding verify_invariants from_audit audit_balances
verify-exact user db {v = v} {after = after} capitals h =
    elim (Result-cases (audit_balances user db)) [
      | inr (x, e) ↦ absurd (cc (rw (e, from_audit) at h))
      | inl (rs, e) ↦
          let whole : (ok (verdict user (deviations rs) db), db) ≡ (ok v, after) =
            sym (decide-false user (deviations rs) db) ∙ (rw (e, from_audit) at h) in
          let made : verdict user (deviations rs) db ≡ v = cc whole in
          let same : after ≡ db = cc whole in
          let (all, nothing) =
            deviations-All_iff capitals (keep (in_scope user) db.accounts) db.transactions e in
          let (zero_then, then_zero) = exit_of_iff (deviations rs) in
          (same, rw (← made) (λ z. all (zero_then z), λ b. then_zero (nothing b)))
    ]

pub All-of_lookup :
    (Q : Account → Type 0) (m : List Account)
    → IsKeyed m
    → ((k : ℕ) (a : Account) → lookup k m ≡ some a → Q a)
    → All Q m
All-of_lookup Q [] h all = tt
All-of_lookup Q (a ∷ m) (new, h) all =
    (all a.id a (rw (==_refl a.id) refl), All-of_lookup Q m h (λ k b e. all k b (ground arith)))

coherent_tests : (b : Bool) → ((b && not b) || (not b && b)) ≡ false
coherent_tests true = refl
coherent_tests false = refl

finding-none :
    (user : Option ℕ) (found : Option Account) (t : Transaction)
    (rest : List CategorizationAuditResult)
    → is_incoherent t ≡ false
    → finding_of user found t rest ≡ rest
finding-none user none t rest e = refl
finding-none user (some a) t rest e = elim (Bool-cases (in_scope user a)) [
  | inl y ↦ rw (y, e) refl
  | inr n ↦ rw n refl
]

findings-none :
    (user : Option ℕ) (accounts : List Account) (rows : List Transaction)
    → All (IsSound accounts) rows
    → findings_in user accounts rows ≡ []
findings-none user accounts [] h = refl
findings-none user accounts (t ∷ rows) (sound, h) =
    let coherent : is_incoherent t ≡ false =
      rw sound.categorized (coherent_tests (exists t.categorization_source)) in
    finding-none user (lookup t.account_id accounts) t (findings_in user accounts rows) coherent
    ∙ findings-none user accounts rows h

decide-nothing :
    ⦃p : Python⦄ (fix : Bool) (user : Option ℕ) (db : Db)
    → decide fix user [] db ≡ (ok (verdict user [] db), db)
unfolding decide
decide-nothing true user db = refl
decide-nothing false user db = refl

valid-silent :
    ⦃p : Python⦄ (fix : Bool) (user : Option ℕ) (db : Db) {v : Verdict} {after : Db}
    → HasCapitals p
    → IsValid db
    → verify_invariants fix user db ≡ (ok v, after)
    → (v.exit_code ≡ 0) × (v.findings ≡ []) × (after ≡ db)
unfolding verify_invariants from_audit audit_balances audit_categorization
valid-silent fix user db {v = v} {after = after} capitals valid h =
    elim (Result-cases (audit_balances user db)) [
      | inr (x, e) ↦ absurd (cc (rw (e, from_audit) at h))
      | inl (rs, e) ↦
          let balanced =
            All-of_lookup (IsBalanced db.transactions) db.accounts valid.account_keys
              (λ k a found. (valid.settled k a found).consistent) in
          let none_off : deviations rs ≡ [] =
            (deviations-All_iff capitals (keep (in_scope user) db.accounts) db.transactions e).1
              (All-keep (IsBalanced db.transactions) (in_scope user) db.accounts balanced) in
          let whole : (ok (verdict user [] db), db) ≡ (ok v, after) =
            sym (decide-nothing fix user db)
            ∙ ap (λ l. decide fix user l db) (sym none_off)
            ∙ (rw (e, from_audit) at h) in
          let made : verdict user [] db ≡ v = cc whole in
          (
            ap (λ (x : Verdict). x.exit_code) (sym made),
            ap (λ (x : Verdict). x.findings) (sym made)
                ∙ findings-none user db.accounts db.transactions valid.sound,
            cc whole,
          )
    ]

-- After any calls on a new database, by any users and whether they return or raise: where the
-- command ends, with a repair or without and in any scope, it ends with code 0, has no finding on
-- categories and changes nothing, if upper case never gives a small ASCII letter.
pub run_all-silent :
    ⦃p : Python⦄ (categorizer : Categorizer) (categories : List Category) (calls : List Call)
    (fix : Bool) (user : Option ℕ) {v : Verdict} {after : Db}
    → HasCapitals p
    → verify_invariants fix user (run_all categorizer calls (empty categories)) ≡ (ok v, after)
    → (v.exit_code ≡ 0) × (v.findings ≡ []) × (after ≡ run_all categorizer calls (empty categories))
run_all-silent categorizer categories calls fix user capitals h =
    valid-silent fix user (run_all categorizer calls (empty categories)) capitals
      (run_all-IsValid categorizer categories calls) h
