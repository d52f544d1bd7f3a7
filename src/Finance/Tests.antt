-- ===== src/Finance/Tests.antt =====
-- Runs of the calls on a small database.
mod Audited
use finty.Base.{
  arith, suc, All, Bool-cases, inl, inr, keep, true, ◌↔◌, Option, ℕ, ◌+◌, ◌≤◌, ◌<◌, ◌≡◌, refl,
  false, none, some, List, [], ◌∷◌, ◌++◌, if◌then◌else◌, leb,
}
use finty.Base.Int.{pos, neg, ◌+ℤ◌, ◌-ℤ◌}
use finty.Base.Table.{IsKeyed}
use finty.Base.Text.{Text, codes, strip, text_eq}
use finty.Shared.Errors.{
  integrity_error, uq_outbox_event_id, domain, negative_balance_not_allowed, Result, ok, err, ◌>>=◌,
  ◌>>◌,
}
use finty.Shared.Python.{Python, HasCapitals, upper}
use finty.Shared.Decimal.{round_half_up, to_cents, with_sign, quantize, coerce_amount}
use finty.Shared.Currency.{RawText, validate_currency_code}
use finty.Shared.Money.{cents, money, require_same_currency, add, subtract}
use finty.Finance.ValueObjects.{
  float_leb, cash, expense, manual, member, account_type_from_value, transaction_type_from_value,
  account_snapshot,
}
use finty.Finance.Logic.{
  apply, revert, recompute, ensure_amount_not_zero, ensure_currency_matches, ensure_date_not_future,
  ensure_account_is_active, ensure_categorized, ensure_balance_allowed,
}
use finty.Finance.Builders
use finty.Finance.Builders.Account as Owned
use finty.Finance.Builders.{Categorizer, manual_category_confidence}
use finty.Finance.Events.{
  DomainEvent, TransactionFacts, event, transaction_manually_added, transaction_deleted,
  transaction_categorized,
}
use finty.Finance.Store.{
  Category, Account, Transaction, Db, account_row, transaction_row, category_row, set_balance,
  set_category, insert_account, insert_transaction, delete_transaction_row, record_event,
}
use finty.Finance.Store.Effects.{pending}
use finty.Finance.Session
use finty.Finance.Session.{pure, lift, gets, check, atomic}
use finty.Finance.Translate.{
  of_raw, Env, as_money, build_snapshot, transaction_draft, transaction_facts, draft_to_columns,
  default_currency, account_draft, resolve_currency,
}
use finty.Finance.Accounts.{
  fetch_account, recompute_balance, calculate, movements, in_scope, audit_balances, audit_all,
  audit_account, create_account, before, duplicate_name,
}
use finty.Finance.Accounts.Recompute.{IsRecomputed, recompute-IsRecomputed}
use finty.Finance.Transactions.Undo.{delete-register}
use finty.Finance.Invariant.{IsValid}
use finty.Finance.Relay.{mark, oldest, pending_count, publish_loop, publish_pending}
use finty.Finance.Relay.Counted.{publish_pending-counts}
use finty.Finance.Backfill as Backfill
use finty.Finance.Backfill.Complete.{IsComplete, run-completes}
use finty.Finance.Audit.{
  repair_all, repaired, audited, after_repair, Verdict, verify_invariants, from_audit, decide,
  audit_categorization,
}
use finty.Finance.Audit.Fixed.{verify-repairs}
use finty.Finance.Audit.Silent.{IsBalanced, verify-exact, run_all-silent}
use finty.Finance.Commands.{Call, empty, run, run_all}
use finty.Finance.Commands.Reachable.{run_all-IsValid}
use finty.Finance.Commands.Atomic.{perform, perform_atomic}
use finty.Finance.Transactions.{
  resolve_category, get_transaction, account_of, category_of, register_transaction, store_category,
  recategorize, delete_transaction,
}
use finty.Finance.Transactions.Register.{IsRegistered, IsAsked, register-IsRegistered}
use finty.Finance.Transactions.Delete.{IsDeleted, delete-IsDeleted}
use finty.Finance.Transactions.Recategorize.{IsRecategorized, recategorize-IsRecategorized}

instance abbrev pub python : Python
python = record {
  upper_other = λ c. if leb 128 c then c ∷ [] else [];
  lower_other = λ c. c ∷ [];
  read_decimal = λ s. none;
}

abbrev pub categorizer : Categorizer
categorizer d m t = err (domain negative_balance_not_allowed)

abbrev pub env : Env
env = record { new_id = 30; event_id = 40; now = 1000; today = 20 }

abbrev later : Env
later = record { new_id = 31; event_id = 41; now = 2000; today = 20 }

abbrev food : Category
food = record { id = 5; name = codes "Food"; applies_to = expense }

abbrev travel : Category
travel = record { id = 6; name = codes "Travel"; applies_to = expense }

abbrev pub wallet : Account
wallet = record {
  id = 1;
  user_id = 7;
  name = codes "Wallet";
  type = cash;
  opening_balance = pos 10000;
  balance = pos 10000;
  currency = default_currency;
  is_archived = false;
}

abbrev pub start : Db
start = record {
  categories = food ∷ travel ∷ [];
  accounts = wallet ∷ [];
  transactions = [];
  outbox = [];
  next_outbox_id = 1;
}

abbrev lunch : Transaction
lunch = record {
  id = 30;
  account_id = 1;
  amount = pos 2500;
  type = expense;
  category_id = some 5;
  description = [];
  occurred_on = 10;
  categorization_source = some manual;
  categorization_confidence = some manual_category_confidence;
  created_at = 1000;
}

abbrev lunch_facts : TransactionFacts
lunch_facts = record {
  user_id = 7;
  transaction_id = 30;
  account_id = 1;
  amount = record { amount = pos 2500; currency = default_currency };
  transaction_type = expense;
  category_name = some (codes "Food");
  categorization_source = some manual;
  occurred_on = 10;
  description = [];
}

abbrev eaten : Db
eaten = record start {
  accounts = record wallet { balance = pos 7500 } ∷ [];
  transactions = lunch ∷ [];
  outbox = pending 1 (event transaction_manually_added lunch_facts 1000 40) ∷ [];
  next_outbox_id = 2;
}

start-IsKeyed : IsKeyed start.accounts
start-IsKeyed = (refl, tt)

eat :
    register_transaction categorizer env 7
      (some 1)
      (of_raw (cents (pos 2500)))
      (member expense)
      10
      none
      (some (RawText.text (codes "Food")))
      start
    ≡ (ok lunch, eaten)
unfolding text_eq register_transaction Session.◌>>=◌ Session.◌>>◌ ◌>>=◌ ◌>>◌ pure lift check atomic
    fetch_account build_snapshot transaction_draft as_money money coerce_amount quantize to_cents
    round_half_up with_sign validate_currency_code upper strip account_snapshot
    account_type_from_value transaction_type_from_value Builders.of_type
    Builders.with_manual_category Builders.build Builders.require_mandatory_fields
    Builders.build_fields Builders.build_with Builders.resolve_category
    Builders.resolve_category_with ensure_amount_not_zero ensure_currency_matches
    ensure_date_not_future ensure_account_is_active ensure_categorized ensure_balance_allowed apply
    add subtract require_same_currency ◌+ℤ◌ ◌-ℤ◌ neg resolve_category draft_to_columns
    insert_transaction float_leb set_balance transaction_facts record_event
eat = refl

-- The purchase is registered as the theorem says.
register_example :
    (r : IsRegistered env 7 start lunch eaten) × IsAsked categorizer env
      (some 1)
      (of_raw (cents (pos 2500)))
      (member expense)
      10
      none
      (some (RawText.text (codes "Food")))
      start
      lunch
      r.account
      r.category
register_example =
    register-IsRegistered categorizer env 7 (some 1) (of_raw (cents (pos 2500))) (member expense) 10
      none (some (RawText.text (codes "Food"))) start start-IsKeyed eat

abbrev trip : Transaction
trip = record lunch { category_id = some 6 }

abbrev trip_facts : TransactionFacts
trip_facts = record lunch_facts { category_name = some (codes "Travel") }

abbrev travelled : Db
travelled = record eaten {
  transactions = trip ∷ [];
  outbox = eaten.outbox ++ (pending 2 (event transaction_categorized trip_facts 2000 41) ∷ []);
  next_outbox_id = 3;
}

travel_again : recategorize later 7 (some 30) (some (codes "Travel")) eaten ≡ (ok trip, travelled)
unfolding text_eq recategorize Session.◌>>=◌ Session.◌>>◌ ◌>>=◌ ◌>>◌ pure lift check atomic
    get_transaction ensure_categorized strip resolve_category store_category set_category account_of
    transaction_facts money coerce_amount quantize to_cents round_half_up with_sign
    validate_currency_code upper record_event
travel_again = refl

recategorize_example :
    (n : Text) × (some (codes "Travel") ≡ some n)
    × (some 30 ≡ some trip.id)
    × IsRecategorized later 7 n eaten trip travelled
recategorize_example =
    recategorize-IsRecategorized later 7 (some 30) (some (codes "Travel")) eaten (refl, tt)
      travel_again

abbrev refunded : Db
refunded = record start {
  outbox = eaten.outbox ++ (pending 2 (event transaction_deleted lunch_facts 2000 41) ∷ []);
  next_outbox_id = 3;
}

refund : delete_transaction later 7 (some 30) eaten ≡ (ok tt, refunded)
unfolding text_eq delete_transaction Session.◌>>=◌ Session.◌>>◌ ◌>>=◌ ◌>>◌ pure lift gets check
    atomic get_transaction fetch_account build_snapshot account_snapshot account_type_from_value
    money coerce_amount quantize to_cents round_half_up with_sign validate_currency_code upper strip
    revert add subtract require_same_currency ◌+ℤ◌ ◌-ℤ◌ neg ensure_balance_allowed category_of
    transaction_facts delete_transaction_row set_balance record_event
refund = refl

delete_example : (t : Transaction) × (some 30 ≡ some t.id) × IsDeleted later 7 eaten t refunded
delete_example = delete-IsDeleted later 7 (some 30) eaten (refl, tt) (refl, tt) refund

undo_example : (refunded.accounts ≡ start.accounts) × (refunded.transactions ≡ start.transactions)
undo_example =
    delete-register categorizer env later 7 (some 1) (of_raw (cents (pos 2500))) (member expense) 10
      none (some (RawText.text (codes "Food"))) start start-IsKeyed tt eat refund

-- A row whose stored balance is wrong.
abbrev drifted : Db
drifted = record eaten { accounts = record wallet { balance = pos 9999 } ∷ [] }

repair : recompute_balance 7 (some 1) drifted ≡ (ok (record wallet { balance = pos 7500 }), eaten)
unfolding text_eq recompute_balance Session.◌>>=◌ Session.◌>>◌ ◌>>=◌ ◌>>◌ pure lift gets atomic
    fetch_account calculate movements recompute apply subtract money coerce_amount quantize to_cents
    round_half_up with_sign validate_currency_code upper strip require_same_currency ◌-ℤ◌ neg
    set_balance
repair = refl

recompute_example : IsRecomputed 7 (some 1) drifted (record wallet { balance = pos 7500 }) eaten
recompute_example = recompute-IsRecomputed 7 (some 1) drifted (refl, tt) repair

abbrev calls : List Call
calls =
    Call.create env 7 (RawText.text (codes "Wallet")) (member cash)
      (some (of_raw (cents (pos 10000)))) none
    ∷ Call.register later 7 (some 30) (of_raw (cents (pos 2500))) (member expense) 10 none
        (some (RawText.text (codes "Food")))
    ∷ Call.delete env 7 (some 31)
    ∷ []

run_all_example : IsValid (run_all categorizer calls (empty (food ∷ travel ∷ [])))
run_all_example = run_all-IsValid categorizer (food ∷ travel ∷ []) calls

-- The identifier of its event stands in the outbox already, so that it raises after its row and the
-- balance were written.
abbrev coffee : Call
coffee =
    Call.register (record env { new_id = 31 }) 7 (some 1) (of_raw (cents (pos 300)))
      (member expense) 10 none (some (RawText.text (codes "Food")))

refused : (perform categorizer coffee eaten).0 ≡ some (integrity_error uq_outbox_event_id)
unfolding perform text_eq register_transaction Session.◌>>=◌ Session.◌>>◌ ◌>>=◌ ◌>>◌ pure lift check
    atomic fetch_account build_snapshot transaction_draft as_money money coerce_amount quantize
    to_cents round_half_up with_sign validate_currency_code upper strip account_snapshot
    account_type_from_value transaction_type_from_value Builders.of_type
    Builders.with_manual_category Builders.build Builders.require_mandatory_fields
    Builders.build_fields Builders.build_with Builders.resolve_category
    Builders.resolve_category_with ensure_amount_not_zero ensure_currency_matches
    ensure_date_not_future ensure_account_is_active ensure_categorized ensure_balance_allowed apply
    add subtract require_same_currency ◌+ℤ◌ ◌-ℤ◌ neg resolve_category draft_to_columns
    insert_transaction float_leb set_balance transaction_facts record_event
refused = refl

atomic_example : (perform categorizer coffee eaten).1 ≡ eaten
atomic_example =
    perform_atomic categorizer coffee eaten (integrity_error uq_outbox_event_id) refused

-- A stream that numbers its messages.
abbrev append : ℕ → DomainEvent → Option ℕ × ℕ
append n e = (some n, n + 1)

abbrev delivered : Db
delivered = mark 2 1 50 (mark 1 0 50 refunded)

deliver_all : publish_pending append 50 10 refunded 0 ≡ (ok 2, delivered, 2)
unfolding publish_pending publish_loop oldest
deliver_all = refl

relay_example :
    (pending_count delivered.outbox + 2 ≡ pending_count refunded.outbox)
    × (2 ≤ 10)
    × (2 < 10 → pending_count delivered.outbox ≡ 0)
relay_example = publish_pending-counts append 50 10 refunded 0 (refl, (refl, tt)) deliver_all
