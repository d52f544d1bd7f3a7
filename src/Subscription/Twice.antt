-- ===== src/Subscription/Twice.antt =====
-- A payment that is confirmed again, and the end of a period.
use finty.Base.{
  ℕ, ⊤, ◌+◌, ◌-◌, ◌*◌, ◌/◌, ◌%◌, ◌≤◌, ◌≡◌, ◌≢◌, refl, sym, ◌∙◌, ap, true, false, Option, none, some,
  inl, inr, Bool-cases, arith, ==_refl,
}
use finty.Base.Table.{lookup, update, lookup-update, key-lookup}
use finty.Subscription.Domain.{
  Moment, precedes, days_in_month, add_months, Result, ok, PaymentStatus, pending, is_final,
  is_approved, resolve,
}
use finty.Subscription.Service.{
  SubscriptionRecord, PaymentRecord, payment_row, subscription_row, Tables, store_activated,
  activate_paid, confirm_found, resolved, settle, confirm_payment,
}

unchanged : (o s : PaymentStatus) → is_final s ≡ true → resolve o s ≡ (false, s)
unfolding resolve
unchanged o s h = ground arith

settled-again :
    (id : ℕ) (o : PaymentStatus) (now : Moment) (months : ℕ) (db : Tables) (p : PaymentRecord)
    → lookup id db.payments ≡ some p
    → is_final p.status ≡ true
    → confirm_payment id o now months db ≡ (ok tt, db)
unfolding confirm_payment confirm_found settle
settled-again id o now months db p found final =
    let same : resolve o p.status ≡ (false, p.status) = unchanged o p.status final in
    rw (confirm_payment, found, confirm_found, same) refl

changed :
    (o s : PaymentStatus)
    → o ≢ pending
    → is_final s ≡ false
    → (resolve o s ≡ (true, o)) × (is_final o ≡ true)
unfolding resolve
changed o s h k = ground arith

activated-payments :
    (r : Option SubscriptionRecord) (s : PaymentStatus) (now : Moment) (months : ℕ)
    (before db : Tables) {db' : Tables}
    → activate_paid r s now months before db ≡ (ok tt, db')
    → db'.payments ≡ db.payments
unfolding activate_paid store_activated
activated-payments none s now months before db e = cc
activated-payments (some r) s now months before db e = ground arith

settled-payments :
    (p : PaymentRecord) (now : Moment) (months : ℕ) (db : Tables) (s : PaymentStatus) {db' : Tables}
    → settle p now months db (true, s) ≡ (ok tt, db')
    → db'.payments ≡ update p.id (resolved now s) db.payments
unfolding settle
settled-payments p now months db s e = elim (Bool-cases (is_approved s)) [
  | inl y ↦ activated-payments _ s now months db _ (rw y at e)
  | inr n ↦ ap (λ (x : Result ⊤ × Tables). x.1.payments) (sym (rw n at e))
]

found-again :
    (id : ℕ) (o : PaymentStatus) (now : Moment) (months : ℕ) (db : Tables)
    (r : Option PaymentRecord) {db' : Tables}
    → o ≢ pending
    → lookup id db.payments ≡ r
    → confirm_found r o now months db ≡ (ok tt, db')
    → (q : PaymentRecord) × (lookup id db'.payments ≡ some q) × (is_final q.status ≡ true)
unfolding confirm_found settle
found-again id o now months db none h found e = cc
found-again id o now months db (some p) h found e = elim (Bool-cases (is_final p.status)) [
  | inl y ↦
      let same = rw (unchanged o p.status y) at e in
      (p, ap (λ (x : Result ⊤ × Tables). lookup id x.1.payments) (sym same) ∙ found, y)
  | inr n ↦
      let (c, final) = changed o p.status h n in
      let rows = settled-payments p now months db o (rw c at e) in
      let ids = key-lookup id db.payments p found in
      let here : lookup p.id db.payments ≡ some p = ap (λ i. lookup i db.payments) ids ∙ found in
      (
        resolved now o p,
        ap (λ m. lookup id m) rows
            ∙ ap (λ i. lookup i (update p.id (resolved now o) db.payments)) (sym ids)
            ∙ lookup-update p.id p.id (resolved now o) db.payments (λ x. refl)
            ∙ rw (==_refl p.id, here) refl,
        final,
      )
]

-- Where a payment was confirmed with an outcome other than PENDING and the call returned,
-- confirming it again, with any outcome and at any instant, returns and changes no table.
pub confirm-confirm :
    (id : ℕ) (o again : PaymentStatus) (now later : Moment) (months : ℕ) (db : Tables)
    {db' : Tables}
    → o ≢ pending
    → confirm_payment id o now months db ≡ (ok tt, db')
    → confirm_payment id again later months db' ≡ (ok tt, db')
unfolding confirm_payment
confirm-confirm id o again now later months db {db' = db'} h e =
    let (q, found, final) = found-again id o now months db (lookup id db.payments) h refl e in
    settled-again id again later months db' q found final

month-bound : (y m : ℕ) → 28 ≤ days_in_month y m
unfolding days_in_month
month-bound y m = ground arith

-- For a month of 1 to 12 and at least one month to add, a result is later than the moment, that
-- many months on, in a month of at most 12, on a day that the month has, no later than the day of
-- the moment and the same where that is at most 28.
pub add_months-precedes :
    (t : Moment) (months : ℕ) {u : Moment}
    → 1 ≤ t.month
    → t.month ≤ 12
    → 1 ≤ months
    → add_months t months ≡ ok u
    → (precedes t u ≡ true)
      × (12 * u.year + u.month ≡ 12 * t.year + t.month + months)
      × (u.month ≤ 12)
      × (u.day ≤ days_in_month u.year u.month)
      × (u.day ≤ t.day)
      × (t.day ≤ 28 → u.day ≡ t.day)
unfolding add_months precedes
add_months-precedes t months h k l e =
    let index = t.month - 1 + months in
    ground (arith, month-bound (t.year + index / 12) (index % 12 + 1))
