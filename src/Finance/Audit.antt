-- ===== src/Finance/Audit.antt =====
-- `audit_categorization` (services/finance-service/services.py) and the command `verify-invariants`
-- with its `--fix` (commands.py). What is printed is left out, and so is the name of a finding's
-- category; the reports are in the order of the tables.
pub mod Silent
pub mod Repaired
pub mod Fixed
use finty.Base.{
  ⊤, ℕ, Bool, true, false, not, ◌&&◌, ◌||◌, Option, none, some, List, [], ◌∷◌, keep, ◌==◌,
  if◌then◌else◌,
}
use finty.Base.Table.{lookup}
use finty.Shared.Errors.{Result, ok, err}
use finty.Shared.Python.{Python}
use finty.Finance.Store.{Account, Transaction, Db, account_row}
use finty.Finance.Accounts.{
  BalanceAuditResult, is_consistent, in_scope, audit_balances, recompute_balance,
}
use finty.Finance.Invariant.{exists}

pub data Reason : Type 0 where
  missing_category missing_source : Reason

pub record CategorizationAuditResult : Type 0 where
  pub transaction : Transaction
  pub owner : Account
  pub reason : Reason

-- The `WHERE` on source and category.
abbrev pub is_incoherent : Transaction → Bool
is_incoherent t =
    (exists t.categorization_source && not (exists t.category_id))
    || (not (exists t.categorization_source) && exists t.category_id)

abbrev pub reason_of : Transaction → Reason
reason_of t = if exists t.category_id then missing_source else missing_category

-- The row of the join with the account, where the scope lets it through.
abbrev pub finding_of :
    Option ℕ
    → Option Account
    → Transaction
    → List CategorizationAuditResult
    → List CategorizationAuditResult
finding_of user none t rest = rest
finding_of user (some a) t rest =
    if in_scope user a && is_incoherent t
    then record { transaction = t; owner = a; reason = reason_of t } ∷ rest
    else rest

abbrev pub findings_in : Option ℕ → List Account → List Transaction → List CategorizationAuditResult
findings_in user accounts [] = []
findings_in user accounts (t ∷ rows) =
    finding_of user (lookup t.account_id accounts) t (findings_in user accounts rows)

unfoldable pub audit_categorization : Option ℕ → Db → List CategorizationAuditResult
audit_categorization user db = findings_in user db.accounts db.transactions

-- How the command ends: its code, what is still wrong, and the findings on categories.
pub record Verdict : Type 0 where
  pub exit_code : ℕ
  pub deviated : List BalanceAuditResult
  pub findings : List CategorizationAuditResult

abbrev pub deviations : List BalanceAuditResult → List BalanceAuditResult
deviations rs = keep (λ r. not (is_consistent r)) rs

abbrev pub exit_of : List BalanceAuditResult → ℕ
exit_of [] = 0
exit_of (r ∷ rs) = 1

abbrev pub verdict : Option ℕ → List BalanceAuditResult → Db → Verdict
verdict user deviated db = record {
  exit_code = exit_of deviated;
  deviated = deviated;
  findings = audit_categorization user db;
}

module _ ⦃p : Python⦄ where
  -- What follows one repair: an exception ends the command, and what was repaired stays.
  unfoldable pub repaired :
      {A : Type 0} → Result Account × Db → (Db → Result A × Db) → Result A × Db
  repaired (err e, db) rest = (err e, db)
  repaired (ok a, db) rest = rest db

  -- The loop of `_fix`.
  unfoldable pub repair_all : List BalanceAuditResult → Db → Result ⊤ × Db
  repair_all [] db = (ok tt, db)
  repair_all (r ∷ rs) db =
      repaired (recompute_balance r.account.user_id (some r.account.id) db)
        (λ next. repair_all rs next)

  unfoldable pub audited : Option ℕ → Db → Result (List BalanceAuditResult) → Result Verdict × Db
  audited user db (err e) = (err e, db)
  audited user db (ok rs) = (ok (verdict user (deviations rs) db), db)

  -- The second audit of `_fix`, and the rest of the command.
  unfoldable pub after_repair : Option ℕ → Result ⊤ × Db → Result Verdict × Db
  after_repair user (err e, db) = (err e, db)
  after_repair user (ok _, db) = audited user db (audit_balances user db)

  -- The command from the deviations that the first audit found.
  unfoldable pub decide : Bool → Option ℕ → List BalanceAuditResult → Db → Result Verdict × Db
  decide fix user [] db = (ok (verdict user [] db), db)
  decide true user (r ∷ rs) db = after_repair user (repair_all (r ∷ rs) db)
  decide false user (r ∷ rs) db = (ok (verdict user (r ∷ rs) db), db)

  unfoldable pub from_audit :
      Bool → Option ℕ → Db → Result (List BalanceAuditResult) → Result Verdict × Db
  from_audit fix user db (err e) = (err e, db)
  from_audit fix user db (ok rs) = decide fix user (deviations rs) db

  -- `verify_invariants`
  unfoldable pub verify_invariants : Bool → Option ℕ → Db → Result Verdict × Db
  verify_invariants fix user db = from_audit fix user db (audit_balances user db)
