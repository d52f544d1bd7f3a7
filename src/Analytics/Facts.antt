-- ===== src/Analytics/Facts.antt =====
-- `TransactionFact` (services/analytics-service/domain/facts.py) and `load_facts` (services.py) on
-- the rows of the read model.
use finty.Base.{ℕ, Bool, true, false, ◌&&◌, Option, none, some, List, [], ◌∷◌, ◌==◌, keep}
use finty.Base.Text.{Text}
use finty.Shared.Errors.{Result, ok, ◌>>=◌}
use finty.Shared.Python.{Python}
use finty.Shared.Currency.{text}
use finty.Shared.Money.{Money, money, cents}
use finty.Finance.ValueObjects.{TransactionType}
use finty.Analytics.Projector as Projector
use finty.Analytics.Period.{Period, Date, start, end}
use finty.Analytics.Period.Days.{is_between}

pub record TransactionFact : Type 0 where
  pub transaction_id : ℕ
  pub account_id : ℕ
  pub amount : Money
  pub transaction_type : TransactionType
  pub category_name : Option Text
  pub description : Text
  pub occurred_on : Date

-- The date that a day of the tables stands for.
pub record Calendar : Type 0 where
  pub date_of : ℕ → Date

abbrev pub is_live : Option ℕ → Bool
is_live none = true
is_live (some _) = false

module _ ⦃p : Python⦄ ⦃c : Calendar⦄ where
  -- The `WHERE` of the query.
  abbrev pub is_loaded : ℕ → Date → Date → Projector.TransactionFact → Bool
  is_loaded user first last r =
      (r.columns.user_id == user)
      && (is_live r.deleted_at && is_between first last (c.date_of r.columns.occurred_on))

  unfoldable pub fact_of : Projector.TransactionFact → Result TransactionFact
  fact_of r = do
    amount ← money (cents r.columns.amount.amount) (text r.columns.amount.currency)
    ok (record {
      transaction_id = r.columns.transaction_id;
      account_id = r.columns.account_id;
      amount = amount;
      transaction_type = r.columns.transaction_type;
      category_name = r.columns.category_name;
      description = r.columns.description;
      occurred_on = c.date_of r.columns.occurred_on;
    })

  unfoldable pub facts_of : List Projector.TransactionFact → Result (List TransactionFact)
  facts_of [] = ok []
  facts_of (r ∷ rows) = do f ← fact_of r; rest ← facts_of rows; ok (f ∷ rest)

  unfoldable pub load_facts :
      List Projector.TransactionFact → ℕ → Period → Period → Result (List TransactionFact)
  load_facts rows user first last = do
    limit ← end last
    facts_of (keep (is_loaded user (start first) limit) rows)
