-- ===== src/Finance/Tests/Audited.antt =====
-- Runs of the backfill and of the command `verify-invariants`.
use finty.Base.{
  arith, suc, All, Bool-cases, inl, inr, keep, true, ◌↔◌, ℕ, ◌+◌, ◌≡◌, refl, false, none, some,
  List, [], ◌∷◌, leb,
}
use finty.Base.Int.{pos, neg}
use finty.Base.Text.{codes, strip, text_eq}
use finty.Shared.Errors.{Result, ok, ◌>>=◌, ◌>>◌}
use finty.Shared.Python.{HasCapitals, upper}
use finty.Shared.Decimal.{round_half_up, to_cents, with_sign, quantize, coerce_amount}
use finty.Shared.Currency.{RawText, validate_currency_code}
use finty.Shared.Money.{cents, money}
use finty.Finance.ValueObjects.{cash, expense, member, account_type_from_value}
use finty.Finance.Logic.{recompute, ensure_currency_matches, ensure_balance_allowed}
use finty.Finance.Builders.Account as Owned
use finty.Finance.Store.{
  Transaction, Db, account_row, transaction_row, category_row, set_balance, insert_account,
}
use finty.Finance.Session
use finty.Finance.Session.{pure, lift, gets, check, atomic}
use finty.Finance.Translate.{of_raw, as_money, default_currency, account_draft, resolve_currency}
use finty.Finance.Accounts.{
  fetch_account, recompute_balance, calculate, movements, in_scope, audit_balances, audit_all,
  audit_account, create_account, before, duplicate_name,
}
use finty.Finance.Backfill as Backfill
use finty.Finance.Backfill.Complete.{IsComplete, run-completes}
use finty.Finance.Audit.{
  repair_all, repaired, audited, after_repair, Verdict, verify_invariants, from_audit, decide,
  audit_categorization,
}
use finty.Finance.Audit.Fixed.{verify-repairs}
use finty.Finance.Audit.Silent.{IsBalanced, verify-exact, run_all-silent}
use finty.Finance.Commands.{Call, empty, run, run_all}
use finty.Finance.Tests.{categorizer, env, python, start, wallet}

abbrev unrecorded : Transaction
unrecorded = record {
  id = 30;
  account_id = 1;
  amount = pos 2500;
  type = expense;
  category_id = none;
  description = [];
  occurred_on = 10;
  categorization_source = none;
  categorization_confidence = none;
  created_at = 900;
}

abbrev before_outbox : Db
before_outbox = record {
  categories = [];
  accounts = wallet ∷ [];
  transactions = unrecorded ∷ record unrecorded { id = 31; created_at = 800 } ∷ [];
  outbox = [];
  next_outbox_id = 1;
}

backfill_example :
    (r : Result ℕ) × (last : Db) × (Backfill.run (λ n. n + 50) 3 1 before_outbox ≡ some (r, last))
    × ((n : ℕ)
        → r ≡ ok n
        → IsComplete 0 n before_outbox last
          × ((more : ℕ) → Backfill.run (λ n. n + 50) (suc more) 1 last ≡ some (ok 0, last)))
backfill_example = run-completes (λ n. n + 50) 1 3 before_outbox (omega arith) (omega arith)

capitals : HasCapitals python
capitals c = elim (Bool-cases (leb 128 c)) [
  | inl y ↦ rw y (inr (ground arith), tt)
  | inr n ↦ rw n tt
]

-- An account whose balance is off by 5.
abbrev off : Db
off = record (empty []) {
  accounts = record wallet { balance = pos 5; opening_balance = pos 0 } ∷ [];
}

off_verdict : Verdict
off_verdict = record {
  exit_code = 1;
  deviated =
      record {
        account = record wallet { balance = pos 5; opening_balance = pos 0 };
        persisted = record { amount = pos 5; currency = default_currency };
        calculated = record { amount = pos 0; currency = default_currency };
      }
      ∷ [];
  findings = [];
}

off_found : verify_invariants false none off ≡ (ok off_verdict, off)
unfolding off_verdict verify_invariants from_audit decide audit_balances audit_all audit_account
    calculate movements recompute money coerce_amount quantize to_cents round_half_up with_sign
    validate_currency_code upper strip audit_categorization text_eq neg ◌>>=◌
off_found = refl

exact_example :
    (off ≡ off)
    × ((off_verdict.exit_code ≡ 0)
        ↔ All (IsBalanced off.transactions) (keep (in_scope none) off.accounts))
exact_example = verify-exact none off capitals off_found

abbrev one_call : List Call
one_call =
    Call.create (record env { new_id = 1 }) 7 (RawText.text (codes "Wallet")) (member cash)
      (some (of_raw (cents (pos 10000)))) none
    ∷ []

one_call_made : run_all categorizer one_call (empty []) ≡ record start { categories = [] }
unfolding run_all run create_account account_draft resolve_currency before duplicate_name
    insert_account Owned.named Owned.of_type Owned.in_currency Owned.build Owned.build_with
    Owned.clean_name Owned.resolve_initial_balance Owned.build_fields as_money atomic pure
    account_type_from_value ensure_currency_matches ensure_balance_allowed money coerce_amount
    quantize to_cents round_half_up with_sign validate_currency_code upper strip text_eq neg ◌>>=◌
    ◌>>◌ Session.◌>>=◌ Session.◌>>◌
one_call_made = refl

abbrev calm : Verdict
calm = record { exit_code = 0; deviated = []; findings = [] }

calm_found :
    verify_invariants true none (record start { categories = [] })
    ≡ (ok calm, record start { categories = [] })
unfolding verify_invariants from_audit decide audit_balances audit_all audit_account calculate
    movements recompute money coerce_amount quantize to_cents round_half_up with_sign
    validate_currency_code upper strip audit_categorization text_eq neg ◌>>=◌
calm_found = refl

silent_example :
    (calm.exit_code ≡ 0)
    × (calm.findings ≡ [])
    × (run_all categorizer one_call (empty []) ≡ run_all categorizer one_call (empty []))
silent_example =
    run_all-silent categorizer [] one_call true none {v = calm}
      {after = run_all categorizer one_call (empty [])} capitals (rw one_call_made calm_found)

abbrev mended : Db
mended = record off { accounts = record wallet { balance = pos 0; opening_balance = pos 0 } ∷ [] }

repair_found : verify_invariants true none off ≡ (ok calm, mended)
unfolding verify_invariants from_audit decide after_repair audited repair_all repaired
    audit_balances audit_all audit_account recompute_balance Session.◌>>=◌ Session.◌>>◌ ◌>>◌ pure
    lift gets atomic fetch_account calculate movements recompute money coerce_amount quantize
    to_cents round_half_up with_sign validate_currency_code upper strip audit_categorization text_eq
    neg ◌>>=◌ set_balance
repair_found = refl

mended_example :
    (calm.exit_code ≡ 0)
    × All (IsBalanced mended.transactions) (keep (in_scope none) mended.accounts)
    × (mended.transactions ≡ off.transactions)
mended_example = verify-repairs none off capitals (refl, tt) repair_found
