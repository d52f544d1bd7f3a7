-- ===== src/Analytics/Tests.antt =====
-- Runs of the projector.
use finty.Base.{◌≡◌, refl, true, false, Option, none, some, List, [], ◌∷◌, ◌++◌, arith}
use finty.Base.Int.{pos}
use finty.Base.Text.{codes}
use finty.Shared.Errors.{ok, ◌>>=◌}
use finty.Finance.ValueObjects.{expense}
use finty.Analytics.Projector.{
  transaction_manually_added, transaction_categorized, TransactionSnapshot, FinanceEvent, ReadModel,
  applied, duplicate, apply_event, fits, entry, finish, project, first_fact,
}
use finty.Analytics.Convergence.{view, deliver, deliver-swap, fixed}
use finty.Analytics.Replay.{project_all, project-again}
use finty.Analytics.Consumer.{
  Message, Source, Consumer, acknowledge, projected, handle_decoded, handle, then_rest, handle_each,
  handle_all,
}
use finty.Analytics.Consumer.Delivered.{IsSafe, handle_all-IsSafe, handle_all-again}

abbrev lunch : TransactionSnapshot
lunch = record {
  user_id = 7;
  transaction_id = 30;
  account_id = 1;
  amount = record { amount = pos 2500; currency = codes "COP" };
  transaction_type = expense;
  category_name = none;
  categorization_source = none;
  occurred_on = 10;
  description = [];
}

abbrev added : FinanceEvent
added = record {
  event_id = 40;
  event_type = transaction_manually_added;
  occurred_at = 1000;
  payload = lunch;
}

abbrev categorized : FinanceEvent
categorized = record {
  event_id = 41;
  event_type = transaction_categorized;
  occurred_at = 2000;
  payload = record lunch {
    category_name = some (codes "Food");
    categorization_source = some (codes "MANUAL");
  };
}

abbrev empty : ReadModel
empty = record { facts = []; processed = [] }

abbrev one : ReadModel
one = record { facts = first_fact added ∷ []; processed = entry added 5 applied ∷ [] }

first_run : project added 5 empty ≡ (ok applied, one)
unfolding project finish fits apply_event
first_run = refl

again_example :
    project added 6 (project_all ((categorized, 7) ∷ []) one)
    ≡ (ok duplicate, project_all ((categorized, 7) ∷ []) one)
again_example = project-again added 5 6 ((categorized, 7) ∷ []) empty first_run

swap_example :
    view (deliver none ([] ++ (added ∷ categorized ∷ [])))
    ≡ view (deliver none ([] ++ (categorized ∷ added ∷ [])))
swap_example =
    deliver-swap (fixed lunch) [] [] added categorized (λ e. omega arith) (refl, (refl, tt))

-- A stream that carries events as they are, and takes every confirmation.
abbrev plain_source : Source (Option FinanceEvent)
plain_source = record { decode = λ f. f; takes_ack = λ n. true }

abbrev batch : List (Message (Option FinanceEvent))
batch = record { id = 5; fields = some added } ∷ record { id = 6; fields = none } ∷ []

abbrev idle : Consumer (Option FinanceEvent)
idle = record { model = empty; acked = [] }

safe_example : IsSafe plain_source (handle_all plain_source batch idle).1
safe_example = handle_all-IsSafe plain_source batch idle tt

batch_handled : (handle_all plain_source batch idle).0 ≡ ok 2
unfolding handle_all handle_each then_rest handle handle_decoded projected acknowledge project
    finish fits apply_event ◌>>=◌
batch_handled = refl

batch_again_example :
    (handle_all
      (record plain_source { takes_ack = λ n. false })
      batch
      (handle_all plain_source batch idle).1).1.model
    ≡ (handle_all plain_source batch idle).1.model
batch_again_example = handle_all-again plain_source (λ n. false) batch idle batch_handled
