-- ===== src/Recommendation/Risk.antt =====
-- The risk profile (services/recommendation-service/domain/risk_profile.py) and
-- `RiskProfileService` (services.py) on the table of models.py.
pub mod Saved
use finty.Base.{
  ℕ, ◌+◌, Bool, true, false, ◌&&◌, Option, none, some, List, [], ◌∷◌, ◌++◌, leb, if◌then◌else◌,
}
use finty.Base.Int.{ℤ, pos, negsuc}
use finty.Base.Table.{Row, lookup, update}
use finty.Shared.Errors.{
  domain, invalid_risk_answer, risk_profile_not_found, Result, ok, err, ◌>>=◌,
}

pub data RiskProfileType : Type 0 where
  conservative moderate aggressive : RiskProfileType

pub data Question : Type 0 where
  investment_horizon loss_reaction experience income_stability goal : Question

abbrev pub questions : List Question
questions = investment_horizon ∷ loss_reaction ∷ experience ∷ income_stability ∷ goal ∷ []

abbrev pub min_answer : ℕ
min_answer = 1

abbrev pub max_answer : ℕ
max_answer = 3

-- What `answers.get(question)` gives: an `int`, or anything else.
pub data RawAnswer : Type 0 where
  int : ℤ → RawAnswer
  boolean missing other : RawAnswer

pub record RiskProfile : Type 0 where
  pub answers : List (Question × ℕ)

abbrev pub is_answer : ℕ → Bool
is_answer n = leb min_answer n && leb n max_answer

unfoldable pub read_answer : RawAnswer → Result ℕ
read_answer (int (pos n)) = if is_answer n then ok n else err (domain invalid_risk_answer)
read_answer (int (negsuc n)) = err (domain invalid_risk_answer)
read_answer boolean = err (domain invalid_risk_answer)
read_answer missing = err (domain invalid_risk_answer)
read_answer other = err (domain invalid_risk_answer)

-- The loop of `from_answers`.
unfoldable pub read_answers : List Question → (Question → RawAnswer) → Result (List (Question × ℕ))
read_answers [] answers = ok []
read_answers (q ∷ qs) answers = do
  value ← read_answer (answers q)
  rest ← read_answers qs answers
  ok ((q, value) ∷ rest)

unfoldable pub from_answers : (Question → RawAnswer) → Result RiskProfile
from_answers answers = do
  ordered ← read_answers questions answers
  ok (record { answers = ordered })

abbrev pub sum_answers : List (Question × ℕ) → ℕ
sum_answers [] = 0
sum_answers ((q, n) ∷ qs) = n + sum_answers qs

abbrev pub score : RiskProfile → ℕ
score profile = sum_answers profile.answers

abbrev pub score_ranges : List (ℕ × RiskProfileType)
score_ranges = (8, conservative) ∷ (11, moderate) ∷ (15, aggressive) ∷ []

unfoldable pub type_in : List (ℕ × RiskProfileType) → ℕ → Result RiskProfileType
type_in [] n = err (domain invalid_risk_answer)
type_in ((upper, t) ∷ ranges) n = if leb n upper then ok t else type_in ranges n

unfoldable pub profile_type : RiskProfile → Result RiskProfileType
profile_type profile = type_in score_ranges (score profile)

-- A row of `risk_profile`, with the column of each question.
pub record RiskProfileRecord : Type 0 where
  pub user_id : ℕ
  pub columns : Question → ℕ
  pub updated_at : ℕ

instance abbrev pub profile_row : Row RiskProfileRecord
profile_row = record { key = λ r. r.user_id }

abbrev pub same_question : Question → Question → Bool
same_question investment_horizon investment_horizon = true
same_question loss_reaction loss_reaction = true
same_question experience experience = true
same_question income_stability income_stability = true
same_question goal goal = true
same_question _ _ = false

-- The `setattr` of each answer.
abbrev pub set_columns : List (Question × ℕ) → (Question → ℕ) → Question → ℕ
set_columns [] columns = columns
set_columns ((q, n) ∷ rest) columns =
    set_columns rest (λ a. if same_question q a then n else columns a)

-- `_profile_from`
unfoldable pub profile_from : RiskProfileRecord → Result RiskProfile
profile_from r = from_answers (λ q. int (pos (r.columns q)))

unfoldable pub found_profile : Option RiskProfileRecord → Result (Option RiskProfile)
found_profile none = ok none
found_profile (some r) = profile_from r >>= λ profile. ok (some profile)

-- `find`
unfoldable pub find : ℕ → List RiskProfileRecord → Result (Option RiskProfile)
find user db = found_profile (lookup user db)

unfoldable pub saved_profile : Option RiskProfileRecord → Result (RiskProfile × ℕ)
saved_profile none = err (domain risk_profile_not_found)
saved_profile (some r) = profile_from r >>= λ profile. ok (profile, r.updated_at)

-- `get`
unfoldable pub get : ℕ → List RiskProfileRecord → Result (RiskProfile × ℕ)
get user db = saved_profile (lookup user db)

abbrev pub written : ℕ → RiskProfile → RiskProfileRecord → RiskProfileRecord
written now profile r = record r {
  columns = set_columns profile.answers r.columns;
  updated_at = now;
}

-- The row that `save` changes or adds.
unfoldable pub store_profile :
    ℕ → ℕ → RiskProfile → Option RiskProfileRecord → List RiskProfileRecord → List RiskProfileRecord
store_profile user now profile none db =
    db ++ (written now profile (record { user_id = user; columns = λ q. 0; updated_at = now }) ∷ [])
store_profile user now profile (some r) db = update user (written now profile) db

-- `save`
unfoldable pub save :
    ℕ
    → ℕ
    → (Question → RawAnswer)
    → List RiskProfileRecord
    → Result (RiskProfile × ℕ) × List RiskProfileRecord
save user now answers db = elim (from_answers answers) [
  | err e ↦ (err e, db)
  | ok profile ↦ (ok (profile, now), store_profile user now profile (lookup user db) db)
]
