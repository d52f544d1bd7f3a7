-- ===== src/Recommendation/Plans/Kept.antt =====
-- Every plan of the table is one that `build_plan` accepts.
use finty.Base.{
  ℕ, ◌≤◌, ◌≡◌, refl, inl, inr, Bool, true, false, Option, none, some, List, [], ◌∷◌, arith, All,
  All-append, Bool-cases, Option-cases, ◌==◌,
}
use finty.Base.Int.{ℤ, pos, ◌<ℤ◌}
use finty.Base.Table.{lookup, erase, IsKeyed, append-IsKeyed, erase-IsKeyed}
use finty.Base.Text.{Text}
use finty.Shared.Errors.{Error, Result, ok, err, >>=-eq-ok, >>-eq-ok, ok-injective, raise_if}
use finty.Shared.Python.{Python}
use finty.Shared.Decimal.{RawAmount}
use finty.Shared.Money.{Money}
use finty.Recommendation.Risk as Risk
use finty.Recommendation.Risk.{RiskProfileType, Question, RawAnswer}
use finty.Recommendation.Plans as Plans
use finty.Recommendation.Plans.{
  InstrumentType, instruments_for, is_among, min_horizon_months, InvestmentPlanDraft, instrument,
  build_plan, InvestmentPlanRecord, plan_row, Tables, plan_record, fits, insert_plan, draft_plan,
  insert_draft, owned, erase_found,
}

-- The rules of a plan.
abbrev pub IsSound : ℕ → InstrumentType → RiskProfileType → ℤ → ℕ → Type 0
IsSound max_horizon t kind contribution horizon =
    (pos 0 <ℤ contribution)
    × (min_horizon_months ≤ horizon)
    × (horizon ≤ max_horizon)
    × (is_among t (instruments_for kind) ≡ true)

abbrev pub IsPlan : ℕ → InvestmentPlanRecord → Type 0
IsPlan max_horizon r =
    IsSound max_horizon r.instrument_type r.risk_profile_type r.monthly_contribution
      r.horizon_months

pub record IsValid (max_horizon : ℕ) (db : Tables) : Type 0 where
  pub keyed : IsKeyed db.plans
  pub sound : All (IsPlan max_horizon) db.plans

abbrev IsSoundDraft : ℕ → InvestmentPlanDraft → Type 0
IsSoundDraft max_horizon d =
    IsSound max_horizon d.instrument_type d.risk_profile_type d.monthly_contribution.amount
      d.horizon_months

raise_if-ok : (c : Bool) (e : Error) → raise_if c e ≡ ok tt → c ≡ false
raise_if-ok true e h = cc
raise_if-ok false e h = refl

build_plan-IsSound :
    (raw : Option InstrumentType) (kind : RiskProfileType) (contribution : Money) (horizon : ℤ)
    (max_horizon : ℕ) {d : InvestmentPlanDraft}
    → build_plan raw kind contribution horizon max_horizon ≡ ok d
    → IsSoundDraft max_horizon d
unfolding build_plan
build_plan-IsSound raw kind contribution horizon max_horizon h =
    let (positive, h₁) = >>-eq-ok _ _ h in
    let (bounded, h₂) = >>-eq-ok _ _ h₁ in
    let (t, member, h₃) = >>=-eq-ok _ _ h₂ in
    let (suited, h₄) = >>-eq-ok _ _ h₃ in
    let p = raise_if-ok _ _ positive in
    let b = raise_if-ok _ _ bounded in
    let s = raise_if-ok _ _ suited in
    rw (← ok-injective h₄) (ground arith, ground arith, ground arith, ground arith)

-- A call, with its arguments, the time and the identifier that a new plan gets.
pub data Call : Type 0 where
  save : ℕ → ℕ → (Question → RawAnswer) → Call
  create : ℕ → ℕ → ℕ → Option InstrumentType → RawAmount → Option Text → ℤ → Call
  delete : ℕ → ℕ → Call

All-erase :
    (P : InvestmentPlanRecord → Type 0) (k : ℕ) (m : List InvestmentPlanRecord)
    → All P m
    → All P (erase k m)
All-erase P k [] h = tt
All-erase P k (a ∷ m) (here, rest) = elim (Bool-cases (a.id == k)) [
  | inl y ↦ rw y (All-erase P k m rest)
  | inr n ↦ rw n (here, All-erase P k m rest)
]

insert_plan-IsValid :
    (max_horizon : ℕ) (r : InvestmentPlanRecord) (db : Tables)
    → lookup r.id db.plans ≡ none
    → IsPlan max_horizon r
    → IsValid max_horizon db
    → IsValid max_horizon (insert_plan r db).1
unfolding insert_plan
insert_plan-IsValid max_horizon r db free h v = elim (Bool-cases (fits r)) [
  | inl y ↦ rw y (record {
    keyed = append-IsKeyed db.plans r v.keyed free;
    sound = All-append (IsPlan max_horizon) db.plans (r ∷ []) v.sound (h, tt);
  })
  | inr n ↦ rw n v
]

erase_found-IsValid :
    (max_horizon : ℕ) (found : Result InvestmentPlanRecord) (db : Tables)
    → IsValid max_horizon db
    → IsValid max_horizon (erase_found found db).1
unfolding erase_found
erase_found-IsValid max_horizon (err e) db v = v
erase_found-IsValid max_horizon (ok r) db v = record {
  keyed = erase-IsKeyed r.id db.plans v.keyed;
  sound = All-erase (IsPlan max_horizon) r.id db.plans v.sound;
}

module _ ⦃p : Python⦄ (max_horizon : ℕ) where
  -- The tables after a call, whether it returned or raised. A new identifier is not in use.
  pub perform : Call → Tables → Tables
  perform (save user now answers) db = record db {
    profiles = (Risk.save user now answers db.profiles).1;
  }
  perform (create now id user raw contribution currency horizon) db = elim (lookup id db.plans) [
    | none ↦ (Plans.create now id user raw contribution currency horizon max_horizon db).1
    | some _ ↦ db
  ]
  perform (delete user id) db = (Plans.delete user id db).1

  pub run : List Call → Tables → Tables
  run [] db = db
  run (x ∷ xs) db = run xs (perform x db)

  insert_draft-IsValid :
      (now id user : ℕ) (d : Result InvestmentPlanDraft) (db : Tables)
      → lookup id db.plans ≡ none
      → ((x : InvestmentPlanDraft) → d ≡ ok x → IsSoundDraft max_horizon x)
      → IsValid max_horizon db
      → IsValid max_horizon (insert_draft now id user d db).1
  unfolding insert_draft
  insert_draft-IsValid now id user (err e) db free h v = v
  insert_draft-IsValid now id user (ok d) db free h v =
      insert_plan-IsValid max_horizon (plan_record now id user d) db free (h d refl) v

  draft_plan-IsSound :
      (user : ℕ) (raw : Option InstrumentType) (contribution : RawAmount) (currency : Option Text)
      (horizon : ℤ) (db : Tables) {d : InvestmentPlanDraft}
      → draft_plan user raw contribution currency horizon max_horizon db ≡ ok d
      → IsSoundDraft max_horizon d
  unfolding draft_plan
  draft_plan-IsSound user raw contribution currency horizon db h =
      let (found, e₀, h₁) = >>=-eq-ok _ _ h in
      let (profile, e₁, h₂) = >>=-eq-ok _ _ h₁ in
      let (kind, e₂, h₃) = >>=-eq-ok _ _ h₂ in
      let (amount, e₃, h₄) = >>=-eq-ok _ _ h₃ in
      build_plan-IsSound raw kind amount horizon max_horizon h₄

  perform-IsValid :
      (x : Call) (db : Tables) → IsValid max_horizon db → IsValid max_horizon (perform x db)
  unfolding perform Plans.create Plans.delete
  perform-IsValid (save user now answers) db v = record { keyed = v.keyed; sound = v.sound }
  perform-IsValid (create now id user raw contribution currency horizon) db v =
      elim (Option-cases (lookup id db.plans)) [
        | inl free ↦
            rw (free, perform)
              (insert_draft-IsValid now id user
                (draft_plan user raw contribution currency horizon max_horizon db) db free
                (λ x e. draft_plan-IsSound user raw contribution currency horizon db e) v)
        | inr (r, used) ↦ rw (used, perform) v
      ]
  perform-IsValid (delete user id) db v = erase_found-IsValid max_horizon (owned user id db) db v

  runs-IsValid :
      (xs : List Call) (db : Tables) → IsValid max_horizon db → IsValid max_horizon (run xs db)
  unfolding run
  runs-IsValid [] db v = v
  runs-IsValid (x ∷ xs) db v = runs-IsValid xs (perform x db) (perform-IsValid x db v)

  -- Whatever questionnaires are saved and plans created and deleted on empty tables, by any users
  -- and whether the calls return or raise: no identifier stands twice, and every plan has a
  -- positive contribution, a horizon of one month up to the largest, and an instrument that is
  -- recommended for the type of profile that it records.
  pub all_calls-IsValid :
      (xs : List Call) → IsValid max_horizon (run xs (record { profiles = []; plans = [] }))
  all_calls-IsValid xs =
      runs-IsValid xs (record { profiles = []; plans = [] }) (record { keyed = tt; sound = tt })
