-- ===== src/Subscription/Service.antt =====
-- `SubscriptionService` (services/subscription-service/services.py). A call gives what it returns or
-- raises, and the tables afterwards. The view that `checkout` and `cancel` return is left out.
use finty.Base.{
  ℕ, ⊤, Bool, true, false, not, ◌&&◌, Option, none, some, List, [], ◌∷◌, ◌++◌, map, find, keep,
  order_by, ltb, ◌==◌, if◌then◌else◌,
}
use finty.Base.Table.{Row, lookup, update}
use finty.Subscription.Domain.{
  Moment, precedes, Error, invalid_transition, payment_not_found, no_active_subscription,
  subscription_already_active, payment_in_progress, plan_not_purchasable, attribute_error,
  integrity_error, Result, ok, err, PaymentStatus, pending, error, is_approved, resolve,
  SubscriptionStatus, pending_payment, expired, is_current, is_granting, Subscription, is_over,
  grants_premium, activate,
}
use finty.Subscription.Domain as Domain

pub record SubscriptionRecord : Type 0 where
  pub id : ℕ
  pub user_id : ℕ
  pub state : Subscription

pub record PaymentRecord : Type 0 where
  pub id : ℕ
  pub subscription_id : ℕ
  pub user_id : ℕ
  pub amount_in_cents : ℕ
  pub status : PaymentStatus
  pub created_at : ℕ
  pub resolved_at : Option Moment

instance abbrev pub subscription_row : Row SubscriptionRecord
subscription_row = record { key = λ s. s.id }

instance abbrev pub payment_row : Row PaymentRecord
payment_row = record { key = λ p. p.id }

pub record Tables : Type 0 where
  pub subscriptions : List SubscriptionRecord
  pub payments : List PaymentRecord

-- `ck_subscription_period`, where the status is not PENDING_PAYMENT.
abbrev pub ends_later : Option Moment → Option Moment → Bool
ends_later (some start) (some end) = precedes start end
ends_later (some start) none = true
ends_later none end = true

-- `_store_subscription`
abbrev pub store_subscription : ℕ → Subscription → Tables → Tables
store_subscription id s db = record db {
  subscriptions = update id (λ r. record r { state = s }) db.subscriptions;
}

-- The commit of what `activate` said; an exception restores the tables `before` the block.
unfoldable pub store_activated :
    ℕ → Tables → Tables → Result (Bool × Subscription) → Result ⊤ × Tables
store_activated id before db (err e) = (err e, before)
store_activated id before db (ok (false, s)) = (ok tt, db)
store_activated id before db (ok (true, s)) =
    if ends_later s.current_period_start s.current_period_end
    then (ok tt, store_subscription id s db)
    else (err integrity_error, before)

-- A payment that was approved, and the row of the subscription that it pays for.
unfoldable pub activate_paid :
    Option SubscriptionRecord → PaymentStatus → Moment → ℕ → Tables → Tables → Result ⊤ × Tables
activate_paid none status now months before db = (err attribute_error, before)
activate_paid (some r) status now months before db =
    store_activated r.id before db (activate r.state status now months)

abbrev pub resolved : Moment → PaymentStatus → PaymentRecord → PaymentRecord
resolved now status p = record p { status = status; resolved_at = some now }

-- The end of `confirm_payment`, on what `resolve` said.
unfoldable pub settle :
    PaymentRecord → Moment → ℕ → Tables → Bool × PaymentStatus → Result ⊤ × Tables
settle p now months db (false, status) = (ok tt, db)
settle p now months db (true, status) =
    let paid : Tables = record db { payments = update p.id (resolved now status) db.payments } in
    if is_approved status
    then activate_paid (lookup p.subscription_id db.subscriptions) status now months db paid
    else (ok tt, paid)

unfoldable pub confirm_found :
    Option PaymentRecord → PaymentStatus → Moment → ℕ → Tables → Result ⊤ × Tables
confirm_found none outcome now months db = (err payment_not_found, db)
confirm_found (some p) outcome now months db = settle p now months db (resolve outcome p.status)

unfoldable pub confirm_payment : ℕ → PaymentStatus → Moment → ℕ → Tables → Result ⊤ × Tables
confirm_payment id outcome now months db =
    confirm_found (lookup id db.payments) outcome now months db

abbrev pub current_of : ℕ → SubscriptionRecord → Bool
current_of user r = r.user_id == user && is_current r.state.status

-- `_current_record`; the unique index leaves one row at most.
unfoldable pub current_record : ℕ → Tables → Option SubscriptionRecord
current_record user db = find (current_of user) db.subscriptions

unfoldable pub store_canceled : ℕ → Tables → Result (Bool × Subscription) → Result ⊤ × Tables
store_canceled id db (err e) = (err e, db)
store_canceled id db (ok (false, s)) = (ok tt, db)
store_canceled id db (ok (true, s)) = (ok tt, store_subscription id s db)

unfoldable pub cancel_record : Option SubscriptionRecord → Moment → Tables → Result ⊤ × Tables
cancel_record none now db = (err no_active_subscription, db)
cancel_record (some r) now db =
    if not (grants_premium r.state now)
    then (err no_active_subscription, db)
    else store_canceled r.id db (Domain.cancel r.state now)

unfoldable pub cancel : ℕ → Moment → Tables → Result ⊤ × Tables
cancel user now db = cancel_record (current_record user db) now db

-- The row after the `UPDATE` of `expire_all`.
abbrev pub expire_row : Moment → SubscriptionRecord → SubscriptionRecord
expire_row now r =
    if is_granting r.state.status && is_over r.state.current_period_end now
    then record r { state = record r.state { status = expired } }
    else r

unfoldable pub expire_all : Moment → Tables → Tables
expire_all now db = record db { subscriptions = map (expire_row now) db.subscriptions }

abbrev pub expire_of : ℕ → Moment → SubscriptionRecord → SubscriptionRecord
expire_of user now r = if r.user_id == user then expire_row now r else r

-- `_expire_finished`
unfoldable pub expire_finished : ℕ → Moment → Tables → Tables
expire_finished user now db = record db {
  subscriptions = map (expire_of user now) db.subscriptions;
}

abbrev of_subscription : ℕ → PaymentRecord → Bool
of_subscription id p = p.subscription_id == id

abbrev first : {A : Type 0} → List A → Option A
first [] = none
first (a ∷ m) = some a

-- `_last_payment`
unfoldable pub last_payment : ℕ → Tables → Option PaymentRecord
last_payment id db =
    first (order_by (λ p q. ltb q.created_at p.created_at) (keep (of_subscription id) db.payments))

-- What a checkout draws from outside: two ids and the instants.
pub record Env : Type 0 where
  pub subscription_id : ℕ
  pub payment_id : ℕ
  pub created_at : ℕ
  pub now : Moment

abbrev in_progress : Option PaymentRecord → Bool
in_progress none = false
in_progress (some p) = not (Domain.is_final p.status)

-- The subscription that the checkout pays for, and the tables with it.
unfoldable pub open_subscription :
    Env → ℕ → Option SubscriptionRecord → Tables → Result (ℕ × Tables)
open_subscription env user none db =
    if Domain.is_set (lookup env.subscription_id db.subscriptions)
    then err subscription_already_active
    else ok (
      env.subscription_id,
      record db {
        subscriptions =
            db.subscriptions
            ++ (record {
              id = env.subscription_id;
              user_id = user;
              state = record {
                status = pending_payment;
                current_period_start = none;
                current_period_end = none;
                canceled_at = none;
              };
            }
                ∷ []);
      },
    )
open_subscription env user (some r) db =
    if is_granting r.state.status
    then err subscription_already_active
    else if in_progress (last_payment r.id db)
    then err payment_in_progress
    else ok (r.id, db)

abbrev pub new_payment : Env → ℕ → ℕ → ℕ → PaymentRecord
new_payment env user price id = record {
  id = env.payment_id;
  subscription_id = id;
  user_id = user;
  amount_in_cents = price;
  status = pending;
  created_at = env.created_at;
  resolved_at = none;
}

unfoldable pub add_payment : Env → ℕ → ℕ → Result (ℕ × Tables) → Result Tables
add_payment env user price (err e) = err e
add_payment env user price (ok (id, opened)) =
    if Domain.is_set (lookup env.payment_id opened.payments)
    then err integrity_error
    else ok (record opened { payments = opened.payments ++ (new_payment env user price id ∷ []) })

-- The block of `checkout`, which commits before the gateway is called.
unfoldable pub open_payment : Env → ℕ → ℕ → Tables → Result Tables
open_payment env user price db =
    let swept = expire_finished user env.now db in
    add_payment env user price (open_subscription env user (current_record user swept) swept)

-- `_submit`: a gateway that raises, here `none`, leaves the payment in ERROR.
abbrev pub submit : Option PaymentStatus → PaymentStatus
submit none = error
submit (some outcome) = outcome

-- The payment that was opened is submitted and its outcome confirmed.
unfoldable pub submit_payment :
    Env → ℕ → ℕ → ℕ → (ℕ → Option PaymentStatus) → Tables → Result Tables → Result ⊤ × Tables
submit_payment env user price months gateway db (err e) = (err e, db)
submit_payment env user price months gateway db (ok opened) =
    confirm_payment env.payment_id (submit (gateway price)) env.now months opened

-- `checkout`, with the price and the months of the plan; the gateway is asked for the price.
unfoldable pub checkout : Env → ℕ → ℕ → ℕ → (ℕ → Option PaymentStatus) → Tables → Result ⊤ × Tables
checkout env user price months gateway db =
    if price == 0
    then (err plan_not_purchasable, db)
    else submit_payment env user price months gateway db (open_payment env user price db)
