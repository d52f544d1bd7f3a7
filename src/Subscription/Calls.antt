-- ===== src/Subscription/Calls.antt =====
-- Every call of the service keeps INV-05.
use finty.Base.{
  ℕ, ◌≡◌, refl, ◌∙◌, ap, Bool, true, false, Option, none, some, List, [], ◌∷◌, map, find, All,
  All-append, inl, inr, Bool-cases, arith, ◌==◌,
}
use finty.Base.Table.{key-lookup, lookup, update, update-IsKeyed}
use finty.Subscription.Domain.{
  Moment, Error, Result, ok, err, PaymentStatus, pending, error, is_final, is_approved, resolve,
  is_pending, is_granting, is_over, Subscription, effective_status, grants_premium, activate,
  is_set,
}
use finty.Subscription.Domain as Domain
use finty.Subscription.Service.{
  SubscriptionRecord, PaymentRecord, subscription_row, payment_row, Tables, ends_later,
  store_activated, activate_paid, confirm_found, store_canceled, resolved, settle, confirm_payment,
  current_of, current_record, cancel_record, cancel, expire_row, expire_all, expire_of,
  expire_finished, Env, open_subscription,
}
use finty.Subscription.Paid.{
  IsCovered, IsPaid, approved_for, approved-resolved, approved-new, map-IsCovered, store-IsCovered,
  find-IsCovered, expire-IsCovered,
}

store_activated-keeps :
    (id : ℕ) (before db : Tables) (x : Result (Bool × Subscription))
    → IsPaid before
    → IsPaid db
    → approved_for id db.payments ≡ true
    → IsPaid (store_activated id before db x).1
unfolding store_activated
store_activated-keeps id before db (err e) v w a = v
store_activated-keeps id before db (ok (false, s)) v w a = w
store_activated-keeps id before db (ok (true, s)) v w a =
    elim (Bool-cases (ends_later s.current_period_start s.current_period_end)) [
      | inl y ↦ rw y (record {
        keys = w.keys;
        covered = store-IsCovered db.payments id s db.subscriptions a w.covered;
      })
      | inr n ↦ rw n v
    ]

activate_paid-keeps :
    (r : Option SubscriptionRecord) (id : ℕ) (s : PaymentStatus) (now : Moment) (months : ℕ)
    (before db : Tables)
    → ((x : SubscriptionRecord) → r ≡ some x → x.id ≡ id)
    → IsPaid before
    → IsPaid db
    → approved_for id db.payments ≡ true
    → IsPaid (activate_paid r s now months before db).1
unfolding activate_paid
activate_paid-keeps none id s now months before db same v w a = v
activate_paid-keeps (some r) id s now months before db same v w a =
    store_activated-keeps r.id before db (activate r.state s now months) v w (rw (same r refl) a)

pub ok-injective : {A : Type 0} {a b : A} → ok a ≡ ok b → a ≡ b
ok-injective e = cc

resolve-changes :
    (outcome s : PaymentStatus) {x : PaymentStatus}
    → resolve outcome s ≡ (true, x)
    → is_final s ≡ false
unfolding resolve
resolve-changes outcome s e = ground arith

resolved-IsPaid :
    (db : Tables) (p : PaymentRecord) (now : Moment) (s : PaymentStatus)
    → IsPaid db
    → lookup p.id db.payments ≡ some p
    → is_final p.status ≡ false
    → IsPaid (record db { payments = update p.id (resolved now s) db.payments })
resolved-IsPaid db p now s v found unsettled = record {
  keys = update-IsKeyed p.id (resolved now s) db.payments (λ x. refl) v.keys;
  covered =
      map-IsCovered db.payments _ db.subscriptions
        (λ id a. approved-resolved id p.id now s db.payments p v.keys found unsettled a) v.covered;
}

settle-keeps :
    (p : PaymentRecord) (now : Moment) (months : ℕ) (db : Tables) (c : Bool) (s : PaymentStatus)
    → IsPaid db
    → lookup p.id db.payments ≡ some p
    → (c ≡ true → is_final p.status ≡ false)
    → IsPaid (settle p now months db (c, s)).1
unfolding settle
settle-keeps p now months db false s v found h = v
settle-keeps p now months db true s v found h =
    let w = resolved-IsPaid db p now s v found (h refl) in
    elim (Bool-cases (is_approved s)) [
      | inl y ↦ rw y (
          activate_paid-keeps (lookup p.subscription_id db.subscriptions) p.subscription_id s now
            months db _ (key-lookup p.subscription_id db.subscriptions) v w
            (approved-new p.id now s db.payments p found y))
      | inr n ↦ rw n w
    ]

confirm_found-keeps :
    (r : Option PaymentRecord) (outcome : PaymentStatus) (now : Moment) (months : ℕ) (db : Tables)
    → IsPaid db
    → ((p : PaymentRecord) → r ≡ some p → lookup p.id db.payments ≡ some p)
    → IsPaid (confirm_found r outcome now months db).1
unfolding confirm_found
confirm_found-keeps none outcome now months db v h = v
confirm_found-keeps (some p) outcome now months db v h =
    let r = resolve outcome p.status in
    settle-keeps p now months db r.0 r.1 v (h p refl)
      (λ e. resolve-changes outcome p.status (ap (λ x. (x, r.1)) e))

pub confirm-keeps :
    (id : ℕ) (outcome : PaymentStatus) (now : Moment) (months : ℕ) (db : Tables)
    → IsPaid db
    → IsPaid (confirm_payment id outcome now months db).1
unfolding confirm_payment
confirm-keeps id outcome now months db v =
    confirm_found-keeps (lookup id db.payments) outcome now months db v
      (λ p e. ap (λ i. lookup i db.payments) (key-lookup id db.payments p e) ∙ e)

granted-current :
    (s : Subscription) (now : Moment) → grants_premium s now ≡ true → is_pending s.status ≡ false
unfolding grants_premium effective_status
granted-current s now h = ground arith

store_canceled-keeps :
    (id : ℕ) (db : Tables) (x : Result (Bool × Subscription))
    → IsPaid db
    → approved_for id db.payments ≡ true
    → IsPaid (store_canceled id db x).1
unfolding store_canceled
store_canceled-keeps id db (err e) v a = v
store_canceled-keeps id db (ok (false, s)) v a = v
store_canceled-keeps id db (ok (true, s)) v a = record {
  keys = v.keys;
  covered = store-IsCovered db.payments id s db.subscriptions a v.covered;
}

cancel_record-keeps :
    (r : Option SubscriptionRecord) (now : Moment) (db : Tables)
    → IsPaid db
    → ((x : SubscriptionRecord) → r ≡ some x → IsCovered db.payments x)
    → IsPaid (cancel_record r now db).1
unfolding cancel_record
cancel_record-keeps none now db v h = v
cancel_record-keeps (some r) now db v h = elim (Bool-cases (grants_premium r.state now)) [
  | inl y ↦
      let a : approved_for r.id db.payments ≡ true =
        rw (granted-current r.state now y) at (h r refl) in
      rw y (store_canceled-keeps r.id db (Domain.cancel r.state now) v a)
  | inr n ↦ rw n v
]

pub cancel-keeps :
    (user : ℕ) (now : Moment) (db : Tables) → IsPaid db → IsPaid (cancel user now db).1
unfolding cancel current_record
cancel-keeps user now db v =
    cancel_record-keeps (find (current_of user) db.subscriptions) now db v
      (λ x e. find-IsCovered (current_of user) db.payments db.subscriptions x e v.covered)

rows-IsCovered :
    (f : SubscriptionRecord → SubscriptionRecord) (ps : List PaymentRecord)
    (m : List SubscriptionRecord)
    → ((r : SubscriptionRecord) → IsCovered ps r → IsCovered ps (f r))
    → All (IsCovered ps) m
    → All (IsCovered ps) (map f m)
rows-IsCovered f ps [] h k = tt
rows-IsCovered f ps (r ∷ m) h (c, k) = (h r c, rows-IsCovered f ps m h k)

pub expire_all-keeps : (now : Moment) (db : Tables) → IsPaid db → IsPaid (expire_all now db)
unfolding expire_all
expire_all-keeps now db v = record {
  keys = v.keys;
  covered =
      rows-IsCovered (expire_row now) db.payments db.subscriptions
        (expire-IsCovered now db.payments) v.covered;
}

expire_of-IsCovered :
    (user : ℕ) (now : Moment) (ps : List PaymentRecord) (r : SubscriptionRecord)
    → IsCovered ps r
    → IsCovered ps (expire_of user now r)
expire_of-IsCovered user now ps r c = elim (Bool-cases (r.user_id == user)) [
  | inl y ↦ rw y (expire-IsCovered now ps r c)
  | inr n ↦ rw n c
]

pub expire_finished-keeps :
    (user : ℕ) (now : Moment) (db : Tables) → IsPaid db → IsPaid (expire_finished user now db)
unfolding expire_finished
expire_finished-keeps user now db v = record {
  keys = v.keys;
  covered =
      rows-IsCovered (expire_of user now) db.payments db.subscriptions
        (expire_of-IsCovered user now db.payments) v.covered;
}

old_tables :
    (env : Env) (user : ℕ) (r : SubscriptionRecord) (db : Tables) {id : ℕ} {db' : Tables}
    → open_subscription env user (some r) db ≡ ok (id, db')
    → db' ≡ db
unfolding open_subscription
old_tables env user r db e = ground arith

pub open_subscription-keeps :
    (env : Env) (user : ℕ) (r : Option SubscriptionRecord) (db : Tables) {id : ℕ} {db' : Tables}
    → IsPaid db
    → open_subscription env user r db ≡ ok (id, db')
    → IsPaid db'
unfolding open_subscription
open_subscription-keeps env user none db v e =
    elim (Bool-cases (is_set (lookup env.subscription_id db.subscriptions))) [
      | inl y ↦ cc (rw y at e)
      | inr n ↦
          let made = ok-injective (rw n at e) in
          rw (← ap (λ x. x.1) made) (record {
            keys = v.keys;
            covered = All-append (IsCovered db.payments) db.subscriptions _ v.covered (refl, tt);
          })
    ]
open_subscription-keeps env user (some r) db v e = rw (old_tables env user r db e) v
