-- ===== src/Recommendation/Plans/Tests.antt =====
-- The theorems on profiles and plans at concrete tables.
use finty.Base.{ℕ, ◌≡◌, ◌≢◌, refl, none, some, List, [], ◌∷◌}
use finty.Base.Int.{pos}
use finty.Base.Text.{codes, strip}
use finty.Shared.Errors.{ok, ◌>>=◌, ◌>>◌}
use finty.Shared.Python.{Python, upper}
use finty.Shared.Decimal.{RawAmount, coerce_amount, quantize, to_cents, with_sign}
use finty.Shared.Currency.{validate_currency_code}
use finty.Shared.Money.{money}
use finty.Recommendation.Risk as Risk
use finty.Recommendation.Risk.{
  RiskProfileType, Question, investment_horizon, loss_reaction, experience, income_stability, goal,
  RawAnswer, int, RiskProfile, read_answer, read_answers, from_answers, profile_type, type_in,
  profile_from, found_profile, store_profile, RiskProfileRecord,
}
use finty.Recommendation.Risk.Saved.{find-save}
use finty.Recommendation.Plans.{
  cdt, conservative, InvestmentPlanRecord, Tables, instrument, build_plan, insert_plan, required,
  draft_plan, insert_draft, create,
}
use finty.Recommendation.Plans.Kept.{Call, IsValid, run, all_calls-IsValid}
use finty.Recommendation.Plans.Owned.{IsOwned, create-IsOwned}

instance abbrev python : Python
python = record { upper_other = λ c. []; lower_other = λ c. c ∷ []; read_decimal = λ s. none }

abbrev cautious : Question → RawAnswer
cautious q = int (pos 1)

abbrev careful : RiskProfile
careful = record {
  answers =
      (investment_horizon, 1)
      ∷ (loss_reaction, 1)
      ∷ (experience, 1)
      ∷ (income_stability, 1)
      ∷ (goal, 1)
      ∷ [];
}

abbrev saved_rows : List RiskProfileRecord
saved_rows = (Risk.save 7 100 cautious []).1

saved : Risk.save 7 100 cautious [] ≡ (ok (careful, 100), saved_rows)
unfolding Risk.save from_answers read_answers read_answer ◌>>=◌
saved = refl

save_example :
    (Risk.find 7 saved_rows ≡ ok (some careful))
    × ((t : RiskProfileType) × (profile_type careful ≡ ok t))
    × ((k : ℕ) → k ≢ 7 → Risk.find k saved_rows ≡ Risk.find k [])
save_example = find-save 7 100 cautious [] saved

abbrev one_profile : Tables
one_profile = record { profiles = saved_rows; plans = [] }

abbrev a_plan : InvestmentPlanRecord
a_plan = record {
  id = 9;
  user_id = 7;
  instrument_type = cdt;
  risk_profile_type = conservative;
  monthly_contribution = pos 5000;
  currency = codes "COP";
  horizon_months = 12;
  created_at = 200;
}

planned :
    create 200 9 7 (some cdt) (RawAmount.int (pos 50)) none (pos 12) 600 one_profile
    ≡ (ok a_plan, record one_profile { plans = a_plan ∷ [] })
unfolding create insert_draft insert_plan draft_plan required build_plan instrument Risk.find
    found_profile profile_from from_answers read_answers read_answer profile_type type_in Risk.save
    store_profile money coerce_amount quantize to_cents with_sign validate_currency_code upper strip
    ◌>>=◌ ◌>>◌
planned = refl

owned_example : IsOwned 7 a_plan one_profile (record one_profile { plans = a_plan ∷ [] })
owned_example =
    create-IsOwned 200 9 7 (some cdt) (RawAmount.int (pos 50)) none (pos 12) 600 one_profile refl
      planned

abbrev some_calls : List Call
some_calls =
    Call.save 7 100 cautious
    ∷ Call.create 200 9 7 (some cdt) (RawAmount.int (pos 50)) none (pos 12)
    ∷ Call.delete 8 9
    ∷ []

plans_example : IsValid 600 (run 600 some_calls (record { profiles = []; plans = [] }))
plans_example = all_calls-IsValid 600 some_calls
