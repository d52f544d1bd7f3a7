-- ===== src/Subscription/Tests.antt =====
-- Runs of the service.
use finty.Base.{◌+◌, ◌*◌, ◌≤◌, ◌≡◌, refl, true, none, some, [], ◌∷◌, arith}
use finty.Subscription.Domain.{
  Moment, precedes, days_in_month, add_months, ok, approved, declined, pending, active, resolve,
  activate, pending_payment,
}
use finty.Subscription.Service.{
  Tables, Env, confirm_payment, confirm_found, settle, activate_paid, store_activated,
}
use finty.Subscription.Paid.{IsPaid}
use finty.Subscription.Reachable.{buy, confirm, stop, sweep, run_all, empty, run_all-IsPaid}
use finty.Subscription.Twice.{confirm-confirm, add_months-precedes}

-- The last day of January, at noon.
abbrev january : Moment
january = record { year = 2027; month = 1; day = 31; time = 43200000000 }

abbrev february : Moment
february = record january { month = 2; day = 28 }

a_month : add_months january 1 ≡ ok february
unfolding add_months days_in_month
a_month = refl

a_month_example :
    (precedes january february ≡ true)
    × (12 * february.year + february.month ≡ 12 * january.year + january.month + 1)
    × (february.month ≤ 12)
    × (february.day ≤ days_in_month february.year february.month)
    × (february.day ≤ january.day)
    × (january.day ≤ 28 → february.day ≡ january.day)
a_month_example = add_months-precedes january 1 (omega arith) (omega arith) (omega arith) a_month

abbrev opened : Tables
opened = record {
  subscriptions =
      record {
        id = 1;
        user_id = 7;
        state = record {
          status = pending_payment;
          current_period_start = none;
          current_period_end = none;
          canceled_at = none;
        };
      }
      ∷ [];
  payments =
      record {
        id = 2;
        subscription_id = 1;
        user_id = 7;
        amount_in_cents = 2990000;
        status = pending;
        created_at = 5;
        resolved_at = none;
      }
      ∷ [];
}

abbrev paid : Tables
paid = record {
  subscriptions =
      record {
        id = 1;
        user_id = 7;
        state = record {
          status = active;
          current_period_start = some january;
          current_period_end = some february;
          canceled_at = none;
        };
      }
      ∷ [];
  payments =
      record {
        id = 2;
        subscription_id = 1;
        user_id = 7;
        amount_in_cents = 2990000;
        status = approved;
        created_at = 5;
        resolved_at = some january;
      }
      ∷ [];
}

pay : confirm_payment 2 approved january 1 opened ≡ (ok tt, paid)
unfolding confirm_payment confirm_found resolve settle activate_paid activate store_activated
    add_months days_in_month precedes
pay = refl

pay_again_example : confirm_payment 2 declined february 1 paid ≡ (ok tt, paid)
pay_again_example = confirm-confirm 2 approved declined january february 1 opened (λ e. cc) pay

abbrev env : Env
env = record { subscription_id = 1; payment_id = 2; created_at = 5; now = january }

paid_example : IsPaid (
    run_all
      (buy env 7 2990000 1 (λ _. some approved)
        ∷ stop 7 january
        ∷ sweep february
        ∷ confirm 2 declined january 1
        ∷ [])
      empty)
paid_example = run_all-IsPaid (
    buy env 7 2990000 1 (λ _. some approved)
    ∷ stop 7 january
    ∷ sweep february
    ∷ confirm 2 declined january 1
    ∷ [])
