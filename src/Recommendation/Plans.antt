-- ===== src/Recommendation/Plans.antt =====
-- Investment plans: `build_plan` (services/recommendation-service/domain/investment_plan.py), the
-- instruments of a profile (domain/recommendations.py) and `InvestmentPlanService` (services.py) on
-- the tables of models.py. The projection that accompanies a plan when it is shown is left out.
pub mod Kept
pub mod Owned
mod Tests
use finty.Base.{
  ⊤, ℕ, ◌+◌, Bool, true, false, not, ◌&&◌, ◌||◌, Option, none, some, List, [], ◌∷◌, ◌++◌, ltb, leb,
  ◌==◌, keep, order_by, if◌then◌else◌,
}
use finty.Base.Int.{ℤ, pos, ltb_ℤ, magnitude, pos_part}
use finty.Base.Table.{Row, lookup, erase}
use finty.Base.Text.{Text, codes}
use finty.Shared.Errors.{
  domain, risk_profile_required, instrument_not_recommended, invalid_horizon,
  invalid_monthly_contribution, investment_plan_not_found, value_error, data_error, Result, ok, err,
  ◌>>=◌, ◌>>◌, raise_if,
}
use finty.Shared.Python.{Python}
use finty.Shared.Decimal.{RawAmount}
use finty.Shared.Currency.{text}
use finty.Shared.Money.{Money, money}
use finty.Recommendation.Risk as Risk
use finty.Recommendation.Risk.{
  RiskProfileType, conservative, moderate, aggressive, RiskProfile, profile_type, RiskProfileRecord,
}

pub data InstrumentType : Type 0 where
  cdt liquidity_fund collective_investment_fund etf stocks : InstrumentType

abbrev pub same_instrument : InstrumentType → InstrumentType → Bool
same_instrument cdt cdt = true
same_instrument liquidity_fund liquidity_fund = true
same_instrument collective_investment_fund collective_investment_fund = true
same_instrument etf etf = true
same_instrument stocks stocks = true
same_instrument _ _ = false

-- `INSTRUMENTS_BY_PROFILE`
abbrev pub instruments_for : RiskProfileType → List InstrumentType
instruments_for conservative = cdt ∷ liquidity_fund ∷ []
instruments_for moderate = collective_investment_fund ∷ []
instruments_for aggressive = etf ∷ stocks ∷ []

abbrev pub is_among : InstrumentType → List InstrumentType → Bool
is_among t [] = false
is_among t (u ∷ us) = same_instrument t u || is_among t us

abbrev pub min_horizon_months : ℕ
min_horizon_months = 1

pub record InvestmentPlanDraft : Type 0 where
  pub instrument_type : InstrumentType
  pub risk_profile_type : RiskProfileType
  pub monthly_contribution : Money
  pub horizon_months : ℕ

-- `InstrumentType(...)`, on a value that may be no member.
unfoldable pub instrument : Option InstrumentType → Result InstrumentType
instrument none = err value_error
instrument (some t) = ok t

-- `build_plan`
unfoldable pub build_plan :
    Option InstrumentType → RiskProfileType → Money → ℤ → ℕ → Result InvestmentPlanDraft
build_plan raw profile contribution horizon max_horizon = do
  raise_if (not (ltb_ℤ (pos 0) contribution.amount)) (domain invalid_monthly_contribution)
  raise_if (ltb_ℤ horizon (pos min_horizon_months) || ltb_ℤ (pos max_horizon) horizon)
      (domain invalid_horizon)
  t ← instrument raw
  raise_if (not (is_among t (instruments_for profile))) (domain instrument_not_recommended)
  ok (record {
    instrument_type = t;
    risk_profile_type = profile;
    monthly_contribution = contribution;
    horizon_months = pos_part horizon;
  })

pub record InvestmentPlanRecord : Type 0 where
  pub id : ℕ
  pub user_id : ℕ
  pub instrument_type : InstrumentType
  pub risk_profile_type : RiskProfileType
  pub monthly_contribution : ℤ
  pub currency : Text
  pub horizon_months : ℕ
  pub created_at : ℕ

instance abbrev pub plan_row : Row InvestmentPlanRecord
plan_row = record { key = λ r. r.id }

pub record Tables : Type 0 where
  pub profiles : List RiskProfileRecord
  pub plans : List InvestmentPlanRecord

-- `currency or DEFAULT_CURRENCY`
abbrev pub or_default : Option Text → Text
or_default none = codes "COP"
or_default (some []) = codes "COP"
or_default (some (c ∷ s)) = c ∷ s

abbrev pub plan_record : ℕ → ℕ → ℕ → InvestmentPlanDraft → InvestmentPlanRecord
plan_record now id user d = record {
  id = id;
  user_id = user;
  instrument_type = d.instrument_type;
  risk_profile_type = d.risk_profile_type;
  monthly_contribution = d.monthly_contribution.amount;
  currency = d.monthly_contribution.currency;
  horizon_months = d.horizon_months;
  created_at = now;
}

-- What PostgreSQL asks of a row: `Numeric(14, 2)` and `Integer`; the other checks are those of
-- `build_plan`.
abbrev pub fits : InvestmentPlanRecord → Bool
fits r = ltb (magnitude r.monthly_contribution) 100000000000000 && ltb r.horizon_months 2147483648

unfoldable pub insert_plan : InvestmentPlanRecord → Tables → Result InvestmentPlanRecord × Tables
insert_plan r db =
    if fits r then (ok r, record db { plans = db.plans ++ (r ∷ []) }) else (err data_error, db)

unfoldable pub required : Option RiskProfile → Result RiskProfile
required none = err (domain risk_profile_required)
required (some profile) = ok profile

module _ ⦃p : Python⦄ where
  -- The draft of `create`.
  unfoldable pub draft_plan :
      ℕ
      → Option InstrumentType
      → RawAmount
      → Option Text
      → ℤ
      → ℕ
      → Tables
      → Result InvestmentPlanDraft
  draft_plan user raw contribution currency horizon max_horizon db = do
    found ← Risk.find user db.profiles
    profile ← required found
    kind ← profile_type profile
    amount ← money contribution (text (or_default currency))
    build_plan raw kind amount horizon max_horizon

  unfoldable pub insert_draft :
      ℕ → ℕ → ℕ → Result InvestmentPlanDraft → Tables → Result InvestmentPlanRecord × Tables
  insert_draft now id user (err e) db = (err e, db)
  insert_draft now id user (ok d) db = insert_plan (plan_record now id user d) db

  -- `create`, with the identifier that `uuid4` gives.
  unfoldable pub create :
      ℕ
      → ℕ
      → ℕ
      → Option InstrumentType
      → RawAmount
      → Option Text
      → ℤ
      → ℕ
      → Tables
      → Result InvestmentPlanRecord × Tables
  create now id user raw contribution currency horizon max_horizon db =
      insert_draft now id user (draft_plan user raw contribution currency horizon max_horizon db) db

-- `list`: the newest first, ties by identifier.
abbrev pub newer : InvestmentPlanRecord → InvestmentPlanRecord → Bool
newer a b = ltb b.created_at a.created_at || (a.created_at == b.created_at && ltb a.id b.id)

unfoldable pub list : ℕ → Tables → List InvestmentPlanRecord
list user db = order_by newer (keep (λ r. r.user_id == user) db.plans)

-- `_owned`: another user's plan is as missing.
unfoldable pub owned_found : ℕ → Option InvestmentPlanRecord → Result InvestmentPlanRecord
owned_found user none = err (domain investment_plan_not_found)
owned_found user (some r) =
    if r.user_id == user then ok r else err (domain investment_plan_not_found)

unfoldable pub owned : ℕ → ℕ → Tables → Result InvestmentPlanRecord
owned user id db = owned_found user (lookup id db.plans)

unfoldable pub erase_found : Result InvestmentPlanRecord → Tables → Result ⊤ × Tables
erase_found (err e) db = (err e, db)
erase_found (ok r) db = (ok tt, record db { plans = erase r.id db.plans })

-- `delete`
unfoldable pub delete : ℕ → ℕ → Tables → Result ⊤ × Tables
delete user id db = erase_found (owned user id db) db
