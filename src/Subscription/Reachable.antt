-- ===== src/Subscription/Reachable.antt =====
-- Sequences of calls of the subscription service on a new database.
use finty.Base.{ℕ, ◌≡◌, refl, false, Option, none, List, [], ◌∷◌, inl, inr, Bool-cases, arith, ◌==◌}
use finty.Base.Table.{lookup, append-IsKeyed}
use finty.Subscription.Domain.{Moment, Result, ok, err, PaymentStatus, is_set, Result}
use finty.Subscription.Service.{
  payment_row, Tables, confirm_payment, cancel, expire_all, expire_finished, Env, open_subscription,
  add_payment, new_payment, open_payment, submit_payment, checkout, current_record,
}
use finty.Subscription.Paid.{IsPaid, approved-append, map-IsCovered}
use finty.Subscription.Calls.{
  confirm-keeps, cancel-keeps, expire_all-keeps, expire_finished-keeps, open_subscription-keeps,
  ok-injective,
}

-- A call with its arguments, the clock's instant and the plan's months and price among them.
pub data Call : Type 0 where
  buy : Env → ℕ → ℕ → ℕ → (ℕ → Option PaymentStatus) → Call
  confirm : ℕ → PaymentStatus → Moment → ℕ → Call
  stop : ℕ → Moment → Call
  sweep : Moment → Call

unfoldable pub run : Call → Tables → Tables
run (buy env user price months gateway) db = (checkout env user price months gateway db).1
run (confirm id outcome now months) db = (confirm_payment id outcome now months db).1
run (stop user now) db = (cancel user now db).1
run (sweep now) db = expire_all now db

unfoldable pub run_all : List Call → Tables → Tables
run_all [] db = db
run_all (c ∷ calls) db = run_all calls (run c db)

abbrev pub empty : Tables
empty = record { subscriptions = []; payments = [] }

absent : (k : ℕ) (db : Tables) → is_set (lookup k db.payments) ≡ false → lookup k db.payments ≡ none
absent k db h = ground arith

add_payment-keeps :
    (env : Env) (user price : ℕ) (x : Result (ℕ × Tables)) {db' : Tables}
    → ((id : ℕ) (db : Tables) → x ≡ ok (id, db) → IsPaid db)
    → add_payment env user price x ≡ ok db'
    → IsPaid db'
unfolding add_payment
add_payment-keeps env user price (err e) h k = cc
add_payment-keeps env user price (ok (id, db)) h k =
    let v = h id db refl in
    elim (Bool-cases (is_set (lookup env.payment_id db.payments))) [
      | inl y ↦ cc (rw y at k)
      | inr n ↦
          let p = new_payment env user price id in
          rw (← ok-injective (rw n at k)) (record {
            keys = append-IsKeyed db.payments p v.keys (absent env.payment_id db n);
            covered =
                map-IsCovered db.payments _ db.subscriptions
                  (λ i a. approved-append i db.payments p a) v.covered;
          })
    ]

open_payment-keeps :
    (env : Env) (user price : ℕ) (db : Tables) {db' : Tables}
    → IsPaid db
    → open_payment env user price db ≡ ok db'
    → IsPaid db'
unfolding open_payment
open_payment-keeps env user price db v e =
    let swept = expire_finished user env.now db in
    add_payment-keeps env user price (open_subscription env user (current_record user swept) swept)
      (λ id opened k.
        open_subscription-keeps env user (current_record user swept) swept
          (expire_finished-keeps user env.now db v) k)
      e

submit_payment-keeps :
    (env : Env) (user price months : ℕ) (gateway : ℕ → Option PaymentStatus) (db : Tables)
    (x : Result Tables)
    → IsPaid db
    → ((db' : Tables) → x ≡ ok db' → IsPaid db')
    → IsPaid (submit_payment env user price months gateway db x).1
unfolding submit_payment
submit_payment-keeps env user price months gateway db (err e) v h = v
submit_payment-keeps env user price months gateway db (ok opened) v h =
    confirm-keeps env.payment_id _ env.now months opened (h opened refl)

checkout-keeps :
    (env : Env) (user price months : ℕ) (gateway : ℕ → Option PaymentStatus) (db : Tables)
    → IsPaid db
    → IsPaid (checkout env user price months gateway db).1
unfolding checkout
checkout-keeps env user price months gateway db v = elim (Bool-cases (price == 0)) [
  | inl y ↦ rw y v
  | inr n ↦ rw n (
      submit_payment-keeps env user price months gateway db (open_payment env user price db) v
        (λ db' e. open_payment-keeps env user price db v e))
]

run-IsPaid : (c : Call) (db : Tables) → IsPaid db → IsPaid (run c db)
unfolding run
run-IsPaid (buy env user price months gateway) db v =
    checkout-keeps env user price months gateway db v
run-IsPaid (confirm id outcome now months) db v = confirm-keeps id outcome now months db v
run-IsPaid (stop user now) db v = cancel-keeps user now db v
run-IsPaid (sweep now) db v = expire_all-keeps now db v

from-IsPaid : (calls : List Call) (db : Tables) → IsPaid db → IsPaid (run_all calls db)
unfolding run_all
from-IsPaid [] db v = v
from-IsPaid (c ∷ calls) db v = from-IsPaid calls (run c db) (run-IsPaid c db v)

-- Whatever checkouts, confirmations, cancellations and expirations are run on a new database, with
-- any answer of the gateway and whether they return or raise, the keys of the payments are unique
-- and every subscription that is not waiting for its payment has an approved payment (INV-05).
pub run_all-IsPaid : (calls : List Call) → IsPaid (run_all calls empty)
run_all-IsPaid calls = from-IsPaid calls empty (record { keys = tt; covered = tt })
