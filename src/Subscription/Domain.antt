-- ===== src/Subscription/Domain.antt =====
-- `Payment` and `Subscription` with their state machines
-- (services/subscription-service/domain/subscription.py).
use finty.Base.{
  ℕ, ◌+◌, ◌-◌, ◌/◌, ◌%◌, Bool, true, false, not, ◌&&◌, ◌||◌, Option, none, some, ltb, min, ◌==◌,
  if◌then◌else◌,
}

-- `datetime`: `time` counts the microseconds of the day.
pub record Moment : Type 0 where
  pub year : ℕ
  pub month : ℕ
  pub day : ℕ
  pub time : ℕ

-- Whether the first stands before the second, by year, month, day and time.
abbrev lex : ℕ → ℕ → Bool → Bool
lex a b rest = ltb a b || (a == b && rest)

unfoldable pub precedes : Moment → Moment → Bool
precedes a b = lex a.year b.year (lex a.month b.month (lex a.day b.day (ltb a.time b.time)))

pub is_leap : ℕ → Bool
is_leap y = y % 4 == 0 && (not (y % 100 == 0) || y % 400 == 0)

-- `calendar.monthrange(year, month)[1]`
unfoldable pub days_in_month : ℕ → ℕ → ℕ
unfolding is_leap
days_in_month y m =
    if m == 2
    then (if is_leap y then 29 else 28)
    else if m == 4 || m == 6 || m == 9 || m == 11
    then 30
    else 31

pub data Error : Type 0 where
  invalid_transition payment_not_found no_active_subscription subscription_already_active : Error
  payment_in_progress plan_not_purchasable : Error
  value_error attribute_error integrity_error : Error

pub data Result (A : Type 0) : Type 0 where
  err : Error → Result A
  ok : A → Result A

-- `datetime.replace` raises beyond the year 9999.
unfoldable pub add_months : Moment → ℕ → Result Moment
add_months t months =
    let index = t.month - 1 + months in
    let year = t.year + index / 12 in
    let month = index % 12 + 1 in
    if ltb 9999 year
    then err value_error
    else ok (record {
      year = year;
      month = month;
      day = min t.day (days_in_month year month);
      time = t.time;
    })

pub data PaymentStatus : Type 0 where
  pending approved declined error : PaymentStatus

pub data SubscriptionStatus : Type 0 where
  pending_payment active canceled expired : SubscriptionStatus

-- `FINAL_PAYMENT_STATUSES`
abbrev pub is_final : PaymentStatus → Bool
is_final pending = false
is_final approved = true
is_final declined = true
is_final error = true

abbrev pub is_approved : PaymentStatus → Bool
is_approved approved = true
is_approved pending = false
is_approved declined = false
is_approved error = false

-- `Payment.resolve`, on the status: whether it changed, and the status afterwards.
unfoldable pub resolve : PaymentStatus → PaymentStatus → Bool × PaymentStatus
resolve pending status = (false, status)
resolve outcome status = if is_final status then (false, status) else (true, outcome)

-- `CURRENT_STATUSES` and `GRANTING_STATUSES`
abbrev pub is_current : SubscriptionStatus → Bool
is_current expired = false
is_current pending_payment = true
is_current active = true
is_current canceled = true

abbrev pub is_granting : SubscriptionStatus → Bool
is_granting active = true
is_granting canceled = true
is_granting pending_payment = false
is_granting expired = false

-- The state of a subscription: `plan` is PREMIUM, the one that is sold.
pub record Subscription : Type 0 where
  pub status : SubscriptionStatus
  pub current_period_start : Option Moment
  pub current_period_end : Option Moment
  pub canceled_at : Option Moment

-- Whether the period has an end and `now` is not before it.
abbrev pub is_over : Option Moment → Moment → Bool
is_over none now = false
is_over (some end) now = not (precedes now end)

unfoldable pub effective_status : Subscription → Moment → SubscriptionStatus
effective_status s now =
    if is_granting s.status && is_over s.current_period_end now then expired else s.status

unfoldable pub grants_premium : Subscription → Moment → Bool
grants_premium s now = is_granting (effective_status s now)

abbrev started : Moment → Result Moment → Subscription → Result (Bool × Subscription)
started now (err e) s = err e
started now (ok end) s = ok (
  true,
  record s { status = active; current_period_start = some now; current_period_end = some end },
)

abbrev pub is_pending : SubscriptionStatus → Bool
is_pending pending_payment = true
is_pending active = false
is_pending canceled = false
is_pending expired = false

-- `activate`: whether it changed, and the subscription afterwards.
unfoldable pub activate : Subscription → PaymentStatus → Moment → ℕ → Result (Bool × Subscription)
activate s payment now months =
    if not (is_approved payment)
    then err invalid_transition
    else if not (is_pending s.status)
    then ok (false, s)
    else started now (add_months now months) s

abbrev cancel_from : SubscriptionStatus → Subscription → Moment → Result (Bool × Subscription)
cancel_from canceled s now = ok (false, s)
cancel_from active s now = ok (true, record s { status = canceled; canceled_at = some now })
cancel_from pending_payment s now = err invalid_transition
cancel_from expired s now = err invalid_transition

unfoldable pub cancel : Subscription → Moment → Result (Bool × Subscription)
cancel s now = cancel_from (effective_status s now) s now

abbrev pub is_set : {A : Type 0} → Option A → Bool
is_set none = false
is_set (some _) = true
